-- ===== src/Stratum/Listener/Accept/Runs.antt =====
-- Runs of the listener: turns of its loop and of the task that removes clients, in any order, and
-- what the other tasks do with the connections in between.
use rusty_kaspa_stratum.Shared.{
  ℕ, zero, suc, ◌+◌, ◌<◌, ◌≡◌, refl, Bool, true, false, List, [], ◌∷◌, ◌++◌, Text, arith, inl, inr,
  ◌∙◌, sym, ap, subst, length, length-append, get-insert, contains_key, nat_eq, Result, ok, err,
  Bool-cases,
}
use rusty_kaspa_stratum.External.{External}
use rusty_kaspa_stratum.Stratum.Context.{StratumContext, disconnect}
use rusty_kaspa_stratum.Stratum.Clients.{on_connect}
use rusty_kaspa_stratum.Config.Ports.{bind_addr_from_port}
use rusty_kaspa_stratum.Stratum.Listener.Accept.{
  Arrival, changed, accepted, accept_failed, Removal, flagged, received, closed, Accepting,
  update_at, new_handler, new_context, accept_turn, on_arrival, removal_turn, on_removal,
  disconnect_at, listen_impl, starting, bound,
}

module _ {x : External} where
  -- A handler, or a task, that has changed a connection: not its id, and not whether it is open.
  abbrev pub Keeps : (StratumContext x → StratumContext x) → Type 0
  Keeps f =
      (ctx : StratumContext x)
      → ((f ctx).client_id ≡ ctx.client_id) × ((f ctx).disconnecting ≡ ctx.disconnecting)

  pub data Step (l : Accepting x) : Accepting x → Type 0 where
    accepts : (arrival : Arrival) → Step l (accept_turn arrival l)
    removes : (removal : Removal) → Step l (removal_turn removal l)
    disconnects : (place : ℕ) → Step l (disconnect_at place l)
    handles :
        (place : ℕ) (f : StratumContext x → StratumContext x)
        → Keeps f
        → Step l (record l { contexts = update_at place f l.contexts })

  pub data Reach (l : Accepting x) : Accepting x → Type 0 where
    here : Reach l l
    next : {m n : Accepting x} → Reach l m → Step m n → Reach l n

  pub length-update_at :
      (place : ℕ) (f : StratumContext x → StratumContext x) (contexts : List (StratumContext x))
      → length (update_at place f contexts) ≡ length contexts
  unfolding update_at
  length-update_at place f [] = refl
  length-update_at zero f (ctx ∷ rest) = refl
  length-update_at (suc place) f (ctx ∷ rest) = ap suc (length-update_at place f rest)

  -- The ids are the places, counted from `first`.
  abbrev Numbered : ℕ → List (StratumContext x) → Type 0
  Numbered first [] = Unit
  Numbered first (ctx ∷ rest) = (ctx.client_id ≡ first) × Numbered (suc first) rest

  Numbered-update_at :
      (place : ℕ) (f : StratumContext x → StratumContext x)
      → ((ctx : StratumContext x) → (f ctx).client_id ≡ ctx.client_id)
      → (first : ℕ) (contexts : List (StratumContext x)) → Numbered first contexts
      → Numbered first (update_at place f contexts)
  unfolding update_at
  Numbered-update_at place f same first [] h = tt
  Numbered-update_at zero f same first (ctx ∷ rest) h = (same ctx ∙ h.0, h.1)
  Numbered-update_at (suc place) f same first (ctx ∷ rest) h =
      (h.0, Numbered-update_at place f same (suc first) rest h.1)

  Numbered-append :
      (first : ℕ) (contexts : List (StratumContext x)) (ctx : StratumContext x)
      → ctx.client_id ≡ first + length contexts
      → Numbered first contexts
      → Numbered first (contexts ++ ctx ∷ [])
  Numbered-append first [] ctx e h = (omega (arith, e), tt)
  Numbered-append first (c ∷ rest) ctx e h =
      (h.0, Numbered-append (suc first) rest ctx (omega (arith, e)) h.1)

  -- The table has every connection that was made, under its place, and no removal has been asked for.
  pub record IsKept (l : Accepting x) : Type 0 where
    pub counted : l.client_handler.client_counter ≡ length l.contexts
    pub numbered : Numbered 0 l.contexts
    pub kept : (id : ℕ) → id < length l.contexts → contains_key id l.client_handler.clients ≡ true
    pub unasked : l.disconnect_rx ≡ []
    pub none_removed : l.disconnects ≡ 0
    pub open_loop : l.accepting ≡ true → l.shutting_down ≡ false

  update_at-IsKept :
      (place : ℕ) (f : StratumContext x → StratumContext x)
      → ((ctx : StratumContext x) → (f ctx).client_id ≡ ctx.client_id)
      → (l : Accepting x) → IsKept l
      → IsKept (record l { contexts = update_at place f l.contexts })
  update_at-IsKept place f same l valid =
      let same_length = length-update_at place f l.contexts in
      record {
        counted = valid.counted ∙ sym same_length;
        numbered = Numbered-update_at place f same 0 l.contexts valid.numbered;
        kept = λ id before. valid.kept id (omega (arith, before, same_length));
        unasked = valid.unasked;
        none_removed = valid.none_removed;
        open_loop = valid.open_loop;
      }

  accepted-IsKept :
      (remote_port : ℕ) (writes : ℕ → Bool) (now : ℕ) (l : Accepting x)
      → IsKept l
      → IsKept (on_arrival (accepted remote_port writes now) l)
  unfolding on_arrival on_connect
  accepted-IsKept remote_port writes now l valid =
      let idx = l.client_handler.client_counter in
      let ctx = (on_connect l.client_handler (new_context remote_port writes now)).1 in
      let longer = length-append l.contexts (ctx ∷ []) in
      record {
        counted = omega (arith, valid.counted, longer);
        numbered = Numbered-append 0 l.contexts ctx (omega (arith, valid.counted)) valid.numbered;
        kept = λ id before. ground (
          arith,
          get-insert idx id ctx l.client_handler.clients,
          valid.kept id,
          valid.counted,
          longer,
          before,
        );
        unasked = valid.unasked;
        none_removed = valid.none_removed;
        open_loop = valid.open_loop;
      }

  on_arrival-IsKept :
      (arrival : Arrival) (l : Accepting x)
      → l.accepting ≡ true
      → IsKept l
      → IsKept (on_arrival arrival l)
  unfolding on_arrival
  on_arrival-IsKept (changed true) l running valid = record {
    counted = valid.counted;
    numbered = valid.numbered;
    kept = valid.kept;
    unasked = valid.unasked;
    none_removed = valid.none_removed;
    open_loop = λ e. absurd (cc);
  }
  on_arrival-IsKept (changed false) l running valid = valid
  on_arrival-IsKept (accepted remote_port writes now) l running valid =
      accepted-IsKept remote_port writes now l valid
  on_arrival-IsKept accept_failed l running valid = simp (valid.open_loop running) valid

  ended-IsKept : (l : Accepting x) → IsKept l → IsKept (record l { removing = false })
  ended-IsKept l valid = record {
    counted = valid.counted;
    numbered = valid.numbered;
    kept = valid.kept;
    unasked = valid.unasked;
    none_removed = valid.none_removed;
    open_loop = valid.open_loop;
  }

  -- Nothing is received: no task sends a client.
  on_removal-IsKept :
      (removal : Removal) (l : Accepting x) → IsKept l → IsKept (on_removal removal l)
  unfolding on_removal
  on_removal-IsKept (flagged true) l valid = ended-IsKept l valid
  on_removal-IsKept (flagged false) l valid = valid
  on_removal-IsKept closed l valid = ended-IsKept l valid
  on_removal-IsKept received l valid = simp (valid.unasked) valid

  removal_turn-IsKept :
      (removal : Removal) (l : Accepting x) → IsKept l → IsKept (removal_turn removal l)
  unfolding removal_turn
  removal_turn-IsKept removal l valid = elim (Bool-cases l.removing) [
    | inl h ↦ simp h (on_removal-IsKept removal l valid)
    | inr h ↦ simp h valid
  ]

  accept_turn-IsKept :
      (arrival : Arrival) (l : Accepting x) → IsKept l → IsKept (accept_turn arrival l)
  unfolding accept_turn
  accept_turn-IsKept arrival l valid = elim (Bool-cases l.accepting) [
    | inl h ↦ simp h (on_arrival-IsKept arrival l h valid)
    | inr h ↦ simp h valid
  ]

  Step-IsKept : {l m : Accepting x} → Step l m → IsKept l → IsKept m
  unfolding disconnect_at disconnect
  Step-IsKept {l} (accepts arrival) valid = accept_turn-IsKept arrival l valid
  Step-IsKept {l} (removes removal) valid = removal_turn-IsKept removal l valid
  Step-IsKept {l} (disconnects place) valid =
      update_at-IsKept place disconnect (λ ctx. refl) l valid
  Step-IsKept {l} (handles place f keeps) valid =
      update_at-IsKept place f (λ ctx. (keeps ctx).0) l valid

  Reach-IsKept : {l m : Accepting x} → Reach l m → IsKept l → IsKept m
  Reach-IsKept here valid = valid
  Reach-IsKept (next reach step) valid = Step-IsKept step (Reach-IsKept reach valid)

  starting-IsKept : IsKept (starting (new_handler {x = x}))
  starting-IsKept = record {
    counted = refl;
    numbered = tt;
    kept = λ id before. absurd (omega (arith, before));
    unasked = refl;
    none_removed = refl;
    open_loop = λ h. refl;
  }

  bound-starting :
      (r : Result Text (Unit {0})) (port : Text) (l : Accepting x)
      → bound r port new_handler ≡ ok l
      → starting new_handler ≡ l
  bound-starting (ok u) port l h = ap (λ r. elim r [ ok m ↦ m | err e ↦ starting new_handler ]) h
  bound-starting (err e) port l h = absurd (cc)

  pub listen_impl-IsKept :
      (bind : Text → Result Text (Unit {0})) (port : Text) {l m : Accepting x}
      → listen_impl bind port new_handler ≡ ok l
      → Reach l m
      → IsKept m
  unfolding listen_impl
  listen_impl-IsKept bind port {l} h reach =
      Reach-IsKept reach
        (subst IsKept (bound-starting (bind (bind_addr_from_port port)) port l h) starting-IsKept)

  -- Whatever connects, is disconnected and is received by the task that removes clients, in whatever
  -- order: the table still has every connection that was made since the listener was bound, and no
  -- removal is counted.
  pub listen_impl-contains_key :
      (bind : Text → Result Text (Unit {0})) (port : Text) {l m : Accepting x}
      → listen_impl bind port new_handler ≡ ok l
      → Reach l m
      → (m.disconnects ≡ 0)
        × ((id : ℕ) → id < length m.contexts → contains_key id m.client_handler.clients ≡ true)
  listen_impl-contains_key bind port h reach =
      let valid = listen_impl-IsKept bind port h reach in (valid.none_removed, valid.kept)
