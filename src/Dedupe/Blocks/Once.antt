-- ===== src/Dedupe/Blocks/Once.antt =====
-- A block is marked once: its bounds, its memory, and what a removal undoes.
use rusty_kaspa_stratum.Shared.{
  ℕ, ◌+◌, ◌-◌, ◌≤◌, ◌≡◌, List, [], ◌∷◌, arith, length, get as lookup, get-insert_self,
  length-insert_le, Text, text_key, text_eq_iff, inl, inr, Option-cases, some, none, true, false,
  get-empty, get-remove, length-remove_le,
}
use rusty_kaspa_stratum.Dedupe.Pruning
use rusty_kaspa_stratum.Dedupe.Pruning.Keeps.{prune-fresh, prune-subset, prune_full_front}
use rusty_kaspa_stratum.Dedupe.Pruning.Bounds.{
  Covered, prune-Covered as prune_table-Covered, length-prune,
}
use rusty_kaspa_stratum.Dedupe.Pruning.Push.{Covered-push}
use rusty_kaspa_stratum.Dedupe.Blocks.{BlockSubmitGuard, new, time, prune, try_mark, remove}

pub record IsValid (g : BlockSubmitGuard) : Type 0 where
  pub covered : Covered g.order g.entries
  pub bounded : length g.entries ≤ g.max_entries + 1

pub new_marks-IsValid : (ttl max : ℕ) → IsValid (new ttl max)
unfolding new
new_marks-IsValid ttl max = record {
  covered = λ k h. ground (arith, get-empty {V = ℕ} k);
  bounded = omega arith;
}

-- What a caller may do with the guard.
pub data Call : Type 0 where
  marks removes : Text → ℕ → Call

unfoldable pub step : BlockSubmitGuard → Call → BlockSubmitGuard
step g (marks hash now) = (try_mark g hash now).0
step g (removes hash now) = remove g hash now

unfoldable pub run_marks : BlockSubmitGuard → List Call → BlockSubmitGuard
run_marks g [] = g
run_marks g (c ∷ cs) = run_marks (step g c) cs

prune-room :
    (g : BlockSubmitGuard) (now : ℕ)
    → IsValid g
    → length (prune g now).entries ≤ (prune g now).max_entries
unfolding prune
prune-room g now v = length-prune time g.ttl g.max_entries now g.table v.covered

prune-Covered :
    (g : BlockSubmitGuard) (now : ℕ) → IsValid g → Covered (prune g now).order (prune g now).entries
unfolding prune
prune-Covered g now v = prune_table-Covered time g.ttl g.max_entries now g.table v.covered

try_mark-IsValid :
    (g : BlockSubmitGuard) (hash : Text) (now : ℕ) → IsValid g → IsValid (try_mark g hash now).0
unfolding try_mark
try_mark-IsValid g hash now v =
    let room = prune-room g now v in
    let covered = prune-Covered g now v in
    elim (Option-cases (lookup hash (prune g now).entries)) [
      | inr (d, found) ↦ rw found (record { covered = covered; bounded = omega (arith, room) })
      | inl absent ↦ rw absent (record {
        covered = Covered-push (prune g now).order (prune g now).entries hash now covered;
        bounded = omega (arith, room, length-insert_le hash now (prune g now).entries);
      })
    ]

remove-IsValid :
    (g : BlockSubmitGuard) (hash : Text) (now : ℕ) → IsValid g → IsValid (remove g hash now)
unfolding remove
remove-IsValid g hash now v = record {
  covered = λ k h. ground (arith, prune-Covered g now v k, get-remove hash k (prune g now).entries);
  bounded = omega (arith, prune-room g now v, length-remove_le hash (prune g now).entries);
}

step-IsValid : (g : BlockSubmitGuard) (c : Call) → IsValid g → IsValid (step g c)
unfolding step
step-IsValid g (marks hash now) v = try_mark-IsValid g hash now v
step-IsValid g (removes hash now) v = remove-IsValid g hash now v

-- From a well-formed guard, after any calls at any times, there is at most one entry more than
-- `max_entries`, and every entry has its key in the queue, so that pruning can reach it.
pub run_marks-IsValid :
    (g : BlockSubmitGuard) (cs : List Call) → IsValid g → IsValid (run_marks g cs)
unfolding run_marks
run_marks-IsValid g [] v = v
run_marks-IsValid g (c ∷ cs) v = run_marks-IsValid (step g c) cs (step-IsValid g c v)

module _ (g : BlockSubmitGuard) (hash : Text) (now : ℕ) where
  pub try_mark_known :
      (t : ℕ) → lookup hash (prune g now).entries ≡ some t → (try_mark g hash now).1 ≡ false
  unfolding try_mark
  try_mark_known t h = rw h

  pub try_mark_unknown : lookup hash (prune g now).entries ≡ none → (try_mark g hash now).1 ≡ true
  unfolding try_mark
  try_mark_unknown h = rw h

  config-try_mark :
      ((try_mark g hash now).0.ttl ≡ g.ttl) × ((try_mark g hash now).0.max_entries ≡ g.max_entries)
  unfolding try_mark prune
  config-try_mark = ground arith

  lookup-try_mark :
      (try_mark g hash now).1 ≡ true → lookup hash (try_mark g hash now).0.entries ≡ some now
  unfolding try_mark
  lookup-try_mark h = elim (Option-cases (lookup hash (prune g now).entries)) [
    | inr (t, found) ↦ absurd (ground (arith, found))
    | inl absent ↦ rw absent (get-insert_self hash now (prune g now).entries)
  ]

  lookup-remove : lookup hash (remove g hash now).entries ≡ none
  unfolding remove
  lookup-remove = ground (arith, get-remove hash hash (prune g now).entries, text_eq_iff hash hash)

lookup-prune-none :
    (g : BlockSubmitGuard) (hash : Text) (now : ℕ)
    → lookup hash g.entries ≡ none
    → lookup hash (prune g now).entries ≡ none
unfolding prune
lookup-prune-none g hash now h =
    elim (Option-cases (lookup hash (Pruning.prune time g.ttl g.max_entries now g.table).entries)) [
      | inl absent ↦ absent
      | inr (t, found) ↦
          absurd (ground (arith, h, prune-subset time g.ttl g.max_entries now g.table hash t found))
    ]

lookup-prune_young :
    (g : BlockSubmitGuard) (hash : Text) (now t : ℕ)
    → length g.entries ≤ g.max_entries
    → lookup hash g.entries ≡ some t
    → now - t ≤ g.ttl
    → lookup hash (prune g now).entries ≡ some t
unfolding prune
lookup-prune_young g hash now t room h young =
    prune-fresh time g.ttl g.max_entries now g.table hash t room h young

-- A block that was marked is refused for `ttl`, if the mark left no more than `max_entries`
-- entries.
pub try_mark-try_mark :
    (g : BlockSubmitGuard) (hash : Text) (now later : ℕ)
    → length (try_mark g hash now).0.entries ≤ g.max_entries
    → (try_mark g hash now).1 ≡ true
    → later - now ≤ g.ttl
    → (try_mark (try_mark g hash now).0 hash later).1 ≡ false
try_mark-try_mark g hash now later room h young =
    let same = config-try_mark g hash now in
    try_mark_known _ hash later now (
      lookup-prune_young (try_mark g hash now).0 hash later now (omega (arith, same.1))
        (lookup-try_mark g hash now h) (omega (arith, same.0)))

-- A block whose mark was removed can be marked again, at any time.
pub try_mark-remove :
    (g : BlockSubmitGuard) (hash : Text) (now later : ℕ)
    → (try_mark (remove g hash now) hash later).1 ≡ true
try_mark-remove g hash now later =
    try_mark_unknown _ hash later
      (lookup-prune-none (remove g hash now) hash later (lookup-remove g hash now))

-- A guard with one entry more than `max_entries` forgets the block whose key is at the front of its
-- queue, however young the mark is.
pub try_mark_forgotten :
    (g : BlockSubmitGuard) (hash : Text) (rest : List Text) (now later : ℕ)
    → g.order ≡ hash ∷ rest
    → lookup hash g.entries ≡ some now
    → length g.entries ≡ g.max_entries + 1
    → later - now ≤ g.ttl
    → (try_mark g hash later).1 ≡ true
unfolding prune
try_mark_forgotten g hash rest now later o h full young = try_mark_unknown g hash later (
    rw (prune_full_front time g.ttl g.max_entries later g.table hash rest now full o h young)
      (ground (arith, get-remove hash hash g.entries, text_eq_iff hash hash)))
