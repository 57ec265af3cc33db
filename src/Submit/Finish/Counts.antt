-- ===== src/Submit/Finish/Counts.antt =====
-- What a share adds to the counters of its worker and to those of the bridge.
use rusty_kaspa_stratum.Shared.{
  ℕ, ◌+◌, ◌≡◌, ◌≢◌, refl, ap, ◌∙◌, subst, Bool, true, false, Option, none, some, Text, text_key,
  get, insert, get-insert, get-insert_self, arith, Bool-cases, inl, inr, ok, if◌then◌else◌, HashMap,
  is_empty, ◌>>◌, ◌++◌, ◌∷◌, [],
}
use rusty_kaspa_stratum.External.{External}
use rusty_kaspa_stratum.Rpc.{JsonRpcEvent, Value}
use rusty_kaspa_stratum.Mining.State.{KaspaDiff}
use rusty_kaspa_stratum.Shares.Stats.{WorkStats, new_stats}
use rusty_kaspa_stratum.Stratum.Context.{StratumContext, effective_worker_name}
use rusty_kaspa_stratum.Stratum.Context.Names.{effective_worker_name_twice}
use rusty_kaspa_stratum.Submit.Session.{
  Session, SubmitRunError, get_create_stats, worker_id, seeded, sync_session, create_stats,
  update_stats, update_overall, record_metric, set_guard, on_ctx, bumped, session_metrics,
}
use rusty_kaspa_stratum.Submit.Parse.{PreparedSubmit}
use rusty_kaspa_stratum.Dedupe.Submits.{DuplicateSubmitGuard}
use rusty_kaspa_stratum.Submit.Duplicate.{try_reply_low_diff}
use rusty_kaspa_stratum.Submit.Finish.{credited, hash_value_or, weak_share_found, valid_share_found}

abbrev entry_counts : {F : Type 0} → Option (WorkStats F) → ℕ × ℕ
entry_counts none = (0, 0)
entry_counts (some w) = (w.shares_found, w.invalid_shares)

seeded_counts :
    (x : External) (w : WorkStats x.Float) (d : Option (KaspaDiff x.Float))
    → entry_counts (some (seeded x w d)) ≡ entry_counts (some w)
unfolding seeded
seeded_counts x w none = refl
seeded_counts x w (some d) = elim (Bool-cases (x.positive d.diff_value)) [
  | inl p ↦ rw p
  | inr n ↦ rw n
]

add_zero : (n : ℕ) → n + 0 ≡ n
add_zero n = omega arith

insert_other :
    {V : Type 0} (k j : Text) (w : V) (m : HashMap Text V) → j ≢ k → get j (insert k w m) ≡ get j m
insert_other k j w m d = rw (get-insert k j w m) (ground (arith, text_key.beq_iff k j, d))

module _ {x : External} where
  -- The shares of a worker and its invalid shares; a worker without an entry has none.
  abbrev pub counts_of : Text → Session x → ℕ × ℕ
  counts_of key s = entry_counts (get key s.stats)

  abbrev pub overall_counts : Session x → ℕ × ℕ
  overall_counts s = (s.overall.shares_found, s.overall.invalid_shares)

  -- The worker that the connection is counted under.
  abbrev pub key_of : Session x → Text
  key_of s = (effective_worker_name s.ctx).1

  -- From `s` to `t` only the counters of the connection's worker and those of the bridge go up, by
  -- `v` shares and `w` invalid ones each.
  pub record Counted (v w : ℕ) (s t : Session x) : Type 0 where
    pub worker :
        counts_of (key_of s) t ≡ ((counts_of (key_of s) s).0 + v, (counts_of (key_of s) s).1 + w)
    pub bridge : overall_counts t ≡ ((overall_counts s).0 + v, (overall_counts s).1 + w)
    pub others : (key : Text) → key ≢ key_of s → get key t.stats ≡ get key s.stats

  -- An entry is made where there is none.
  record Created (s t : Session x) : Type 0 where
    name : effective_worker_name t.ctx ≡ effective_worker_name s.ctx
    entry : WorkStats x.Float
    found : get (key_of s) t.stats ≡ some entry
    same_counts : entry_counts (some entry) ≡ counts_of (key_of s) s
    same_overall : t.overall ≡ s.overall
    same_others : (key : Text) → key ≢ key_of s → get key t.stats ≡ get key s.stats

  create_stats-Created :
      (now : ℕ) (ctx' : StratumContext x) (s : Session x) (o : Option (WorkStats x.Float))
      → effective_worker_name ctx' ≡ effective_worker_name s.ctx
      → get (key_of s) s.stats ≡ o
      → Created s (create_stats now (key_of s) o (record s { ctx = ctx' }))
  unfolding new_stats
  create_stats-Created now ctx' s none e h =
      let fresh = seeded x (new_stats x.zero (key_of s) now) ctx'.state.stratum_diff in
      record {
        name = e;
        entry = fresh;
        found = get-insert_self (key_of s) fresh s.stats;
        same_counts =
            rw h (seeded_counts x (new_stats x.zero (key_of s) now) ctx'.state.stratum_diff);
        same_overall = refl;
        same_others = λ key d. insert_other (key_of s) key fresh s.stats d;
      }
  create_stats-Created now ctx' s (some w) e h = record {
    name = e;
    entry = w;
    found = h;
    same_counts = rw h;
    same_overall = refl;
    same_others = λ key d. refl;
  }

  sync_session-Created : (s t : Session x) → Created s t → Created s (sync_session t)
  sync_session-Created s t c = by_wallet (is_empty t.ctx.wallet_addr)
    where
      by_wallet :
          (b : Bool)
          → Created s (if b then t else record t { metrics = t.metrics ++ session_metrics ∷ [] })
      by_wallet true = c
      by_wallet false = record {
        name = c.name;
        entry = c.entry;
        found = c.found;
        same_counts = c.same_counts;
        same_overall = c.same_overall;
        same_others = c.same_others;
      }

  get_create_stats-Created :
      (now : ℕ) (s : Session x) (E : Type 0)
      → ((get_create_stats {E = E} now s).0 ≡ ok (key_of s))
        × Created s (get_create_stats {E = E} now s).1
  unfolding get_create_stats worker_id
  get_create_stats-Created now s E = (
    refl,
    sync_session-Created s _ (
        create_stats-Created now (effective_worker_name s.ctx).0 s (get (key_of s) s.stats)
          (effective_worker_name_twice s.ctx) refl),
  )

  again : (s t u : Session x) → Created s t → Created t u → Created s u
  again s t u c d =
      let same_key : key_of t ≡ key_of s = ap (λ p. p.1) c.name in
      record {
        name = d.name ∙ c.name;
        entry = d.entry;
        found = subst (λ k. get k u.stats ≡ some d.entry) same_key d.found;
        same_counts =
            d.same_counts
            ∙ ap (λ k. counts_of k t) same_key
            ∙ ap entry_counts c.found
            ∙ c.same_counts;
        same_overall = d.same_overall ∙ c.same_overall;
        same_others = λ key h. d.same_others key (λ e. h (e ∙ same_key)) ∙ c.same_others key h;
      }

  bumped_overall :
      (f : WorkStats x.Float → WorkStats x.Float) (o : Option (WorkStats x.Float)) (key : Text)
      (t : Session x)
      → (bumped f o key t).overall ≡ t.overall
  bumped_overall f none key t = refl
  bumped_overall f (some w) key t = refl

  -- A handle of the entry changes it.
  bumped-Counted :
      (s t : Session x) (f g : WorkStats x.Float → WorkStats x.Float) (v w : ℕ)
      → Created s t
      → ((e : WorkStats x.Float)
          → entry_counts (some (f e)) ≡ (e.shares_found + v, e.invalid_shares + w))
      → ((e : WorkStats x.Float)
          → entry_counts (some (g e)) ≡ (e.shares_found + v, e.invalid_shares + w))
      → (u : Session x) → u.stats ≡ (bumped f (get (key_of s) t.stats) (key_of s) t).stats
      → u.overall ≡ g (bumped f (get (key_of s) t.stats) (key_of s) t).overall
      → Counted v w s u
  bumped-Counted s t f g v w c hf hg u e o =
      let now_stored : u.stats ≡ insert (key_of s) (f c.entry) t.stats = e ∙ rw (c.found) in
      record {
        worker =
            ap (λ m. entry_counts (get (key_of s) m)) now_stored
            ∙ ap entry_counts (get-insert_self (key_of s) (f c.entry) t.stats)
            ∙ hf c.entry
            ∙ ap (λ p. (p.0 + v, p.1 + w)) c.same_counts;
        bridge =
            ap (λ a. entry_counts (some a))
              (o ∙ ap g (bumped_overall f (get (key_of s) t.stats) (key_of s) t))
            ∙ hg t.overall
            ∙ ap (λ a. (a.shares_found + v, a.invalid_shares + w)) c.same_overall;
        others = λ key h.
            ap (λ m. get key m) now_stored
            ∙ insert_other (key_of s) key (f c.entry) t.stats h
            ∙ c.same_others key h;
      }

  low_diff_end :
      (id : Option (Value x.Number)) (f : DuplicateSubmitGuard → DuplicateSubmitGuard)
      (s : Session x)
      → (((try_reply_low_diff id >> set_guard f) s).1.stats ≡ s.stats)
        × (((try_reply_low_diff id >> set_guard f) s).1.overall ≡ s.overall)
  unfolding try_reply_low_diff on_ctx set_guard
  low_diff_end none f s = (refl, refl)
  low_diff_end (some id) f s = (refl, refl)

  module _ (now : ℕ) (event : JsonRpcEvent x.Number) (prep : PreparedSubmit x) where
    -- A weak share is one invalid share, and no share, of the worker that the connection is
    -- counted under and of the bridge, whatever becomes of the reply; no other worker's entry
    -- changes.
    pub weak_share_found-Counted :
        (s : Session x) → Counted 0 1 s (weak_share_found now event prep s).1
    unfolding weak_share_found update_stats update_overall record_metric
    weak_share_found-Counted s =
        let made = get_create_stats-Created now s SubmitRunError in
        rw (made.0) (
          bumped-Counted s (get_create_stats {E = SubmitRunError} now s).1
            (λ w. record w { invalid_shares = w.invalid_shares + 1 })
            (λ w. record w { invalid_shares = w.invalid_shares + 1 }) 0 1 made.1
            (λ e. rw (add_zero e.shares_found)) (λ e. rw (add_zero e.shares_found)) _
            (low_diff_end event.id _ _).0 (low_diff_end event.id _ _).1)

    -- A share for the pool is one share, and no invalid one, of the worker that the connection is
    -- counted under and of the bridge, whatever becomes of the reply; no other worker's entry
    -- changes.
    pub valid_share_found-Counted :
        (s : Session x) → Counted 1 0 s (valid_share_found now event prep s).1
    unfolding valid_share_found update_stats update_overall record_metric set_guard on_ctx
    valid_share_found-Counted s =
        let made = get_create_stats-Created now s SubmitRunError in
        let first = (get_create_stats {E = SubmitRunError} now s).1 in
        let next = get_create_stats-Created now first SubmitRunError in
        let same_key : key_of first ≡ key_of s = ap (λ p. p.1) made.1.name in
        let second =
          again s first (get_create_stats {E = SubmitRunError} now first).1 made.1 next.1 in
        rw (made.0, next.0, same_key)
          (bumped-Counted s (get_create_stats {E = SubmitRunError} now first).1
            (λ w.
              credited x now
                (hash_value_or
                  (get_create_stats {E = SubmitRunError} now first).1.ctx.state.stratum_diff x.zero)
                w)
            (λ w. record w { shares_found = w.shares_found + 1 }) 1 0 second
            (λ e. rw (add_zero e.invalid_shares)) (λ e. rw (add_zero e.invalid_shares)) _ refl refl)
