-- ===== src/Dedupe/Blocks/Leftover/Forgotten.antt =====
-- The second mark of a block is forgotten.
use rusty_kaspa_stratum.Shared.{
  ℕ, ◌+◌, ◌-◌, ◌≤◌, ◌≡◌, ◌≢◌, sym, ap, ◌∙◌, List, [], ◌∷◌, ◌++◌, arith, length, HashMap,
  get as lookup, insert, Text, text_key, text_eq_iff, some, none, true, false, get-remove,
}
use rusty_kaspa_stratum.Dedupe.Blocks.{prune, try_mark}
use rusty_kaspa_stratum.Dedupe.Blocks.Once.{try_mark_known, try_mark_unknown}
use rusty_kaspa_stratum.Dedupe.Blocks.Leftover.{
  one_more, two_more, two_more_is, hash_left, left, older_left, prune_full,
}

-- A guard that has room knows a young block at the front of its queue, another, `hash`, behind it, and
-- a third one. The mark of `hash` is removed, the block is marked again, and two new blocks fill the
-- guard. Within its time to live the second mark of `hash` is then forgotten, since the key took its
-- old place in the queue, and the block can be marked again; the third block, which was marked
-- before, is still refused.
pub try_mark_forgotten_again :
    (ttl max : ℕ) (entries : HashMap Text ℕ) (other hash : Text) (rest : List Text) (a b : Text)
    (t0 t1 t2 t3 t4 t5 t6 : ℕ) (third : Text) (t : ℕ)
    → third ≢ other
    → third ≢ hash
    → lookup third entries ≡ some t
    → lookup other entries ≡ some t0
    → lookup hash entries ≡ some t1
    → other ≢ hash
    → lookup a entries ≡ none
    → lookup b entries ≡ none
    → a ≢ b
    → length entries ≤ max
    → t2 ≤ t3
    → t3 ≤ t4
    → t4 ≤ t5
    → t5 - t0 ≤ ttl
    → t6 - t3 ≤ ttl
    → length (one_more ttl max entries other hash rest a b t2 t3 t4 t5).entries ≡ max + 1
    → length (two_more ttl max entries other hash rest a b t2 t3 t4 t5).entries ≡ max + 1
    → ((try_mark (two_more ttl max entries other hash rest a b t2 t3 t4 t5) hash t6).1 ≡ true)
      × ((try_mark (two_more ttl max entries other hash rest a b t2 t3 t4 t5) third t6).1 ≡ false)
try_mark_forgotten_again ttl max entries other hash rest a b t0 t1 t2 t3 t4 t5 t6 third t d e h
      known marked apart new_a new_b apart_new room early later last young again full still_full =
    let g = two_more ttl max entries other hash rest a b t2 t3 t4 t5 in
    let is =
      two_more_is ttl max entries other hash rest a b t2 t3 t4 t5 t0 t1 known marked apart new_a
        new_b apart_new room early later last young full in
    let order = ((rest ++ hash ∷ []) ++ a ∷ []) ++ b ∷ [] in
    let newest =
      hash_left ttl max entries other hash rest a b t2 t3 t4 t5 t0 t1 known marked apart new_a new_b
        apart_new room early later last young full in
    let kept =
      left ttl max entries other hash rest a b t2 t3 t4 t5 t0 t1 known marked apart new_a new_b
        apart_new room early later last young full in
    let pruned =
      ap (λ m. prune m t6) is
      ∙ prune_full ttl max (insert b t5 kept) hash order t3 t6 newest again
          (ap (λ m. length m.entries) (sym is) ∙ still_full) in
    (
      try_mark_unknown g hash t6 (
          ap (λ m. lookup hash m.entries) pruned
          ∙ ground (arith, get-remove hash hash (insert b t5 kept), text_eq_iff hash hash)),
      try_mark_known g third t6 t (
          ap (λ m. lookup third m.entries) pruned
          ∙ older_left ttl max entries other hash rest a b t2 t3 t4 t5 t0 t1 known marked apart
              new_a new_b apart_new room early later last young full third t d e h),
    )
