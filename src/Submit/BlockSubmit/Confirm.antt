-- ===== src/Submit/BlockSubmit/Confirm.antt =====
-- bridge/src/share_handler/submit/block_submit.rs: the task that waits for an accepted block to turn
-- blue. What `get_current_block_color` answers at each attempt is a parameter, `none` for an error. The
-- task holds the entry of its worker and the statistics of the bridge; its two metrics are entries of
-- the session.
use rusty_kaspa_stratum.Shared.{
  ℕ, zero, suc, ◌+◌, ◌<◌, ◌≡◌, ◌≢◌, refl, Bool, true, false, Option, none, some, if◌then◌else◌,
  arith, ◌⊎◌, inl, inr, Bool-cases, Text, text_key, get, get-insert, get-insert_self, ◌>>◌, [], ◌∷◌,
  ◌++◌, ap, sym, ◌∙◌,
}
use rusty_kaspa_stratum.External.{External}
use rusty_kaspa_stratum.Shares.Stats.{WorkStats}
use rusty_kaspa_stratum.Submit.Session.{
  Session, Run, ConfirmTask, update_stats, update_overall, record_metric, block_found,
  block_not_confirmed_blue, bumped,
}

abbrev pub block_confirm_max_attempts : ℕ
block_confirm_max_attempts = 30

abbrev pub is_blue : Option Bool → Bool
is_blue (some true) = true
is_blue (some false) = false
is_blue none = false

-- `*blocks_found.lock() += 1`
abbrev pub one_block_more : {F : Type 0} → WorkStats F → WorkStats F
one_block_more w = record w { blocks_found = w.blocks_found + 1 }

module _ {x : External} where
  unfoldable pub count_block : ConfirmTask → Run x Text (Unit {0})
  count_block task = do
    update_stats task.worker one_block_more
    update_overall one_block_more
    record_metric block_found

  -- The attempts that are left; `color` answers the first of them at 0.
  unfoldable pub attempt : ℕ → (ℕ → Option Bool) → ConfirmTask → Run x Text (Unit {0})
  unfolding count_block
  attempt zero color task s = record_metric block_not_confirmed_blue s
  attempt (suc n) color task s =
      let rest = attempt n (λ k. color (suc k)) task s in
      if is_blue (color 0) then count_block task s else rest

  unfoldable pub confirm_blue : (ℕ → Option Bool) → ConfirmTask → Run x Text (Unit {0})
  unfolding attempt
  confirm_blue color task = attempt block_confirm_max_attempts color task

not_blue : (o : Option Bool) → is_blue o ≡ false → o ≢ some true
not_blue (some true) h e = absurd (cc)
not_blue (some false) h e = absurd (cc)
not_blue none h e = absurd (cc)

is_blue-some : (o : Option Bool) → is_blue o ≡ true → o ≡ some true
is_blue-some (some true) h = refl
is_blue-some (some false) h = absurd (cc)
is_blue-some none h = absurd (cc)

module _ {x : External} where
  -- From `s` to `t` one block of the worker has been found: its entry, if there is one, and the
  -- statistics of the bridge have one block more and nothing else changed, no other entry did, and one
  -- call of `record_block_found` was made.
  pub record IsCountedOnce (worker : Text) (s t : Session x) : Type 0 where
    pub entry :
        (w : WorkStats x.Float)
        → get worker s.stats ≡ some w
        → get worker t.stats ≡ some (record w { blocks_found = w.blocks_found + 1 })
    pub bridge : t.overall ≡ record s.overall { blocks_found = s.overall.blocks_found + 1 }
    pub others : (key : Text) → key ≢ worker → get key t.stats ≡ get key s.stats
    pub recorded : t.metrics ≡ s.metrics ++ block_found ∷ []

  -- Nothing was counted, and one call of `record_block_not_confirmed_blue` was made.
  pub record IsNotCounted (s t : Session x) : Type 0 where
    pub same_entries : t.stats ≡ s.stats
    pub same_bridge : t.overall ≡ s.overall
    pub recorded : t.metrics ≡ s.metrics ++ block_not_confirmed_blue ∷ []

  bumped-IsCountedOnce :
      (task : ConfirmTask) (s : Session x) (o : Option (WorkStats x.Float))
      → get task.worker s.stats ≡ o
      → IsCountedOnce task.worker s (
          let t = bumped one_block_more o task.worker s in
          record t {
            handler = record t.handler { overall = one_block_more t.overall };
            metrics = t.metrics ++ block_found ∷ [];
          })
  bumped-IsCountedOnce task s none h = record {
    entry = λ w e. absurd (cc);
    bridge = refl;
    others = λ key d. refl;
    recorded = refl;
  }
  bumped-IsCountedOnce task s (some v) h = record {
    entry = λ w e.
        get-insert_self task.worker (one_block_more v) s.stats
        ∙ ap (λ r. elim r [ none ↦ none | some u ↦ some (one_block_more u) ]) (sym h ∙ e);
    bridge = refl;
    others = λ key d.
        rw (get-insert task.worker key (one_block_more v) s.stats)
          (ground (arith, text_key.beq_iff task.worker key, d));
    recorded = refl;
  }

  count_block-IsCountedOnce :
      (task : ConfirmTask) (s : Session x) → IsCountedOnce task.worker s (count_block task s).1
  unfolding count_block update_stats update_overall record_metric
  count_block-IsCountedOnce task s = bumped-IsCountedOnce task s (get task.worker s.stats) refl

  not_confirmed-IsNotCounted :
      (s : Session x) → IsNotCounted s (record_metric {E = Text} block_not_confirmed_blue s).1
  unfolding record_metric
  not_confirmed-IsNotCounted s = record { same_entries = refl; same_bridge = refl; recorded = refl }

  -- The answers of `n` attempts, and what becomes of the session.
  abbrev pub Settles : ℕ → (ℕ → Option Bool) → ConfirmTask → Session x → Session x → Type 0
  Settles n color task s t =
      ((k : ℕ) × (k < n) × (color k ≡ some true) × IsCountedOnce task.worker s t)
      ⊎ (((k : ℕ) → k < n → color k ≢ some true) × IsNotCounted s t)

  attempt-Settles :
      (n : ℕ) (color : ℕ → Option Bool) (task : ConfirmTask) (s : Session x)
      → Settles n color task s (attempt n color task s).1
  unfolding attempt
  attempt-Settles zero color task s =
      inr (λ k h. absurd (omega arith), not_confirmed-IsNotCounted s)
  attempt-Settles (suc n) color task s = elim (Bool-cases (is_blue (color 0))) [
    | inl hit ↦
        inl
          (0, omega arith, is_blue-some (color 0) hit, simp hit (count_block-IsCountedOnce task s))
    | inr miss ↦ elim (attempt-Settles n (λ k. color (suc k)) task s) [
      | inl (k, h, e, d) ↦ inl (suc k, omega arith, e, simp miss d)
      | inr (never, d) ↦ inr (later miss never, simp miss d)
    ]
  ]
    where
      later :
          is_blue (color 0) ≡ false
          → ((k : ℕ) → k < n → color (suc k) ≢ some true)
          → (k : ℕ) → k < suc n
          → color k ≢ some true
      later miss never zero h = not_blue (color 0) miss
      later miss never (suc k) h = never k (omega arith)

  -- If one of its 30 attempts is answered with blue, the task counts the block once, in the entry of
  -- the worker and in the statistics of the bridge; if none is, it counts nothing and reports the block
  -- as not confirmed.
  pub confirm_blue-Settles :
      (color : ℕ → Option Bool) (task : ConfirmTask) (s : Session x)
      → Settles 30 color task s (confirm_blue color task s).1
  unfolding confirm_blue
  confirm_blue-Settles color task s = attempt-Settles 30 color task s
