-- ===== src/Stratum/Listener/Accept/Ends.antt =====
-- The end of the server.
use rusty_kaspa_stratum.Shared.{
  ℕ, zero, suc, ◌<◌, ◌≡◌, refl, Bool, true, List, [], ◌∷◌, Text, arith, inl, inr, ◌∙◌, length, all,
  ◌==◌, get, contains_key, nat_eq, Result, ok, HashMap, Bool-cases,
}
use rusty_kaspa_stratum.External.{External}
use rusty_kaspa_stratum.Stratum.Context.{StratumContext, disconnect}
use rusty_kaspa_stratum.Stratum.Clients.{disconnect_all}
use rusty_kaspa_stratum.Stratum.Listener.Accept.{
  Accepting, update_at, new_handler, listen_impl, disconnect_clients, after_listen,
}
use rusty_kaspa_stratum.Stratum.Listener.Accept.Runs.{Reach, listen_impl-IsKept, length-update_at}

module _ {x : External} where
  -- The connection at a place, where there is one, is disconnected.
  is_down : ℕ → List (StratumContext x) → Bool
  is_down place [] = true
  is_down zero (ctx ∷ rest) = ctx.disconnecting
  is_down (suc place) (ctx ∷ rest) = is_down place rest

  is_down_at :
      (place : ℕ) (contexts : List (StratumContext x))
      → is_down place (update_at place disconnect contexts) ≡ true
  unfolding is_down update_at disconnect
  is_down_at place [] = refl
  is_down_at zero (ctx ∷ rest) = refl
  is_down_at (suc place) (ctx ∷ rest) = is_down_at place rest

  is_down-update_at :
      (place other : ℕ) (contexts : List (StratumContext x))
      → is_down place contexts ≡ true
      → is_down place (update_at other disconnect contexts) ≡ true
  unfolding is_down update_at disconnect
  is_down-update_at place other [] h = refl
  is_down-update_at zero zero (ctx ∷ rest) h = refl
  is_down-update_at zero (suc other) (ctx ∷ rest) h = h
  is_down-update_at (suc place) zero (ctx ∷ rest) h = h
  is_down-update_at (suc place) (suc other) (ctx ∷ rest) h = is_down-update_at place other rest h

  is_down-disconnect_clients :
      (place : ℕ) (clients : HashMap ℕ (StratumContext x)) (contexts : List (StratumContext x))
      → is_down place contexts ≡ true
      → is_down place (disconnect_clients clients contexts) ≡ true
  unfolding disconnect_clients
  is_down-disconnect_clients place [] contexts h = h
  is_down-disconnect_clients place ((id, client) ∷ clients) contexts h =
      is_down-disconnect_clients place clients (update_at id disconnect contexts)
        (is_down-update_at place id contexts h)

  contains_key-disconnect_clients :
      (place : ℕ) (clients : HashMap ℕ (StratumContext x)) (contexts : List (StratumContext x))
      → contains_key place clients ≡ true
      → is_down place (disconnect_clients clients contexts) ≡ true
  unfolding disconnect_clients get
  contains_key-disconnect_clients place [] contexts h = absurd (cc)
  contains_key-disconnect_clients place ((id, client) ∷ clients) contexts h =
      elim (Bool-cases (id == place)) [
        | inl e ↦
            is_down-disconnect_clients place clients (update_at id disconnect contexts)
              (rw ((nat_eq.beq_iff id place).0 e) (is_down_at place contexts))
        | inr e ↦
            contains_key-disconnect_clients place clients (update_at id disconnect contexts)
              (ground (arith, h, e))
      ]

  length-disconnect_clients :
      (clients : HashMap ℕ (StratumContext x)) (contexts : List (StratumContext x))
      → length (disconnect_clients clients contexts) ≡ length contexts
  unfolding disconnect_clients
  length-disconnect_clients [] contexts = refl
  length-disconnect_clients ((id, client) ∷ clients) contexts =
      length-disconnect_clients clients (update_at id disconnect contexts)
      ∙ length-update_at id disconnect contexts

  all_down :
      (contexts : List (StratumContext x))
      → ((place : ℕ) → place < length contexts → is_down place contexts ≡ true)
      → all (λ ctx. ctx.disconnecting) contexts ≡ true
  unfolding is_down
  all_down [] h = refl
  all_down (ctx ∷ rest) h = ground (
    arith,
    h 0 (omega arith),
    all_down rest (λ place before. h (suc place) (omega (arith, before))),
  )

  -- When the server ends, by a shutdown or by an error of the loop, every connection that was made is
  -- disconnected and none is left in the table, in whatever state the tasks are.
  pub after_listen-disconnecting :
      (bind : Text → Result Text (Unit {0})) (port : Text) {l m : Accepting x}
      → listen_impl bind port new_handler ≡ ok l
      → Reach l m
      → (all (λ ctx. ctx.disconnecting) (after_listen m).contexts ≡ true)
        × ((after_listen m).client_handler.clients ≡ [])
  unfolding after_listen disconnect_all
  after_listen-disconnecting bind port {l} {m} h reach =
      let valid = listen_impl-IsKept bind port h reach in
      let clients = m.client_handler.clients in
      (
        all_down (disconnect_clients clients m.contexts) (λ place before.
            contains_key-disconnect_clients place clients m.contexts (
              valid.kept place
                (omega (arith, before, length-disconnect_clients clients m.contexts)))),
        refl,
      )
