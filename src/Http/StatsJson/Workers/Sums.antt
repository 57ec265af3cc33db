-- ===== src/Http/StatsJson/Workers/Sums.antt =====
-- The shares of the workers, and what one metric adds to them.
use rusty_kaspa_stratum.Shared.{
  ℕ, ◌+◌, ◌-◌, ◌^◌, ◌≤◌, ◌<◌, ◌≡◌, refl, Option, none, some, List, [], ◌∷◌, Text, arith, HashMap,
  get, insert, text_key, text_eq, Bool-cases, Option-cases, inl, inr,
}
use rusty_kaspa_stratum.External.{External}
use rusty_kaspa_stratum.Http.StatsJson.{
  LabelPair, Sample, Family, valid_share, WorkerInfo, saturating_add, new_worker_info,
}
use rusty_kaspa_stratum.Http.StatsJson.Workers.{
  Gathered, add_invalid, count_for, note_for, entry, on_worker_key,
}

-- The greatest `u64`
abbrev pub u64_max : ℕ
u64_max = 2 ^ 64 - 1

module _ {F : Type 0} where
  unfoldable pub sum_shares : HashMap Text (WorkerInfo F) → ℕ
  sum_shares [] = 0
  sum_shares ((key, w) ∷ rest) = w.shares + sum_shares rest

  abbrev shares_at : Option (WorkerInfo F) → ℕ
  shares_at none = 0
  shares_at (some w) = w.shares

  sum_shares-insert :
      (key : Text) (w : WorkerInfo F) (m : HashMap Text (WorkerInfo F))
      → sum_shares (insert key w m) + shares_at (get key m) ≡ sum_shares m + w.shares
  unfolding sum_shares insert get
  sum_shares-insert key w [] = omega arith
  sum_shares-insert key w ((other, v) ∷ rest) = elim (Bool-cases (text_eq other key)) [
    | inl e ↦ rw e (omega arith)
    | inr e ↦ rw e (omega (arith, sum_shares-insert key w rest))
  ]

  shares_at_le :
      (key : Text) (m : HashMap Text (WorkerInfo F)) → shares_at (get key m) ≤ sum_shares m
  unfolding sum_shares get
  shares_at_le key [] = omega arith
  shares_at_le key ((other, v) ∷ rest) = elim (Bool-cases (text_eq other key)) [
    | inl e ↦ rw e (omega arith)
    | inr e ↦ rw e (omega (arith, shares_at_le key rest))
  ]

  pub add_invalid-shares :
      (share_type : Text) (n : ℕ) (w : WorkerInfo F)
      → (add_invalid share_type n w).shares ≡ w.shares
  add_invalid-shares share_type n w = ground arith

-- A metric that is no share.
unfoldable pub Neutral : (x : External) → Family → Type 0
Neutral x family =
    ((labels : List LabelPair) (v : x.Float) (w : WorkerInfo x.Float)
      → (count_for x family labels v w).shares ≡ w.shares)
    × ((key : Text) (v : x.Float) (g : Gathered x)
        → (note_for family key v g).total_shares ≡ g.total_shares)

module _ {x : External} where
  -- The total is the sum over the workers, until it is saturated.
  unfoldable pub Agrees : Gathered x → Type 0
  Agrees g =
      (g.total_shares ≤ u64_max)
      × (g.total_shares < u64_max → sum_shares g.worker_stats ≡ g.total_shares)

  entry-shares :
      (key : Text) (parts : Text × Text × Text) (g : Gathered x)
      → (entry key parts g).shares ≡ shares_at (get key g.worker_stats)
  unfolding entry new_worker_info
  entry-shares key parts g = elim (Option-cases (get key g.worker_stats)) [
    | inl e ↦ rw e refl
    | inr (w, e) ↦ rw e refl
  ]

  pub Neutral-Agrees :
      (family : Family) (key : Text) (parts : Text × Text × Text) (metric : Sample x.Float)
      (g : Gathered x)
      → Neutral x family
      → Agrees g
      → Agrees (on_worker_key family key parts metric g)
  unfolding Agrees Neutral
  Neutral-Agrees family key parts metric g neutral valid =
      let w = count_for x family metric.labels metric.value (entry key parts g) in
      let same = neutral.1 key metric.value g in
      let total = sum_shares-insert key w g.worker_stats in
      let kept = neutral.0 metric.labels metric.value (entry key parts g) in
      let known = entry-shares key parts g in
      (
        omega (arith, same, valid.0),
        λ below.
            (let agreed = valid.1 (omega (arith, same, below)) in
              omega (arith, same, total, kept, known, agreed)),
      )

  pub share-Agrees :
      (key : Text) (parts : Text × Text × Text) (metric : Sample x.Float) (g : Gathered x)
      → Agrees g
      → Agrees (on_worker_key valid_share key parts metric g)
  unfolding Agrees count_for note_for saturating_add
  share-Agrees key parts metric g valid =
      let w = count_for x valid_share metric.labels metric.value (entry key parts g) in
      let total = sum_shares-insert key w g.worker_stats in
      let known = entry-shares key parts g in
      let least = shares_at_le key g.worker_stats in
      (ground (arith, valid.0), λ below. ground (arith, valid.1, below, total, known, least))
