-- ===== src/Stratum/Clients/NewBlocks/Rounds.antt =====
-- Who gets a job of a new block, and how often.
use rusty_kaspa_stratum.Shared.{
  ℕ, ◌+◌, ◌≤◌, ◌<◌, ◌≡◌, refl, Bool, true, false, none, some, [], ◌∷◌, List, get, nat_eq, arith,
  ltb, HashMap, all,
}
use rusty_kaspa_stratum.External.{External}
use rusty_kaspa_stratum.Stratum.Context.{StratumContext}
use rusty_kaspa_stratum.Stratum.Clients.{ClientHandler}
use rusty_kaspa_stratum.Stratum.Clients.NewBlocks.{
  Clock, Spawned, nothing, connected_clients, addresses, check_balances, new_block_available,
  template_delay,
}

module _ {x : External} where
  get-connected_clients :
      (id : ℕ) (client : StratumContext x) (clients : HashMap ℕ (StratumContext x))
      → get id clients ≡ some client
      → client.disconnecting ≡ false
      → get id (connected_clients clients) ≡ some client
  unfolding connected_clients get
  get-connected_clients id client [] h connected = h
  get-connected_clients id client ((id', other) ∷ clients) h connected =
      ground (arith, h, connected, get-connected_clients id client clients)

  check_balances_jobs :
      (later : ℕ) (wallets : List (List ℕ)) (jobs : HashMap ℕ (StratumContext x)) (t : Clock)
      → ((check_balances later wallets jobs t).1.jobs ≡ jobs)
        × ((check_balances later wallets jobs t).0.last_template_time ≡ t.last_template_time)
  unfolding check_balances
  check_balances_jobs later wallets jobs t = ground arith

  new_block_available_late :
      (now later : ℕ) (h : ClientHandler x) (t : Clock)
      → t.last_template_time + template_delay ≤ now
      → ((new_block_available now later h t).1.jobs ≡ connected_clients h.clients)
        × ((new_block_available now later h t).0.last_template_time ≡ now)
  unfolding new_block_available
  new_block_available_late now later h t late =
      let jobs = connected_clients h.clients in
      ground (
        arith,
        late,
        check_balances_jobs later (addresses jobs) jobs (record t { last_template_time = now }),
      )

  new_block_available_early :
      (now later : ℕ) (h : ClientHandler x) (t : Clock)
      → now < t.last_template_time + template_delay
      → new_block_available now later h t ≡ (t, nothing)
  unfolding new_block_available
  new_block_available_early now later h t early = ground (arith, early)

  -- Every client of the table that is connected gets a job task, with this client, when the last
  -- block that was handed out is 250 milliseconds old or older.
  pub new_block_available-Serves :
      (now later : ℕ) (h : ClientHandler x) (t : Clock) (id : ℕ) (client : StratumContext x)
      → t.last_template_time + template_delay ≤ now
      → get id h.clients ≡ some client
      → client.disconnecting ≡ false
      → get id (new_block_available now later h t).1.jobs ≡ some client
  new_block_available-Serves now later h t id client late found connected =
      rw ((new_block_available_late now later h t late).0)
        (get-connected_clients id client h.clients found connected)

  -- Calls one after another, each with its time, the time of its balance check and the clients that
  -- there are by then.
  unfoldable pub run_calls : List (ℕ × ℕ × ClientHandler x) → Clock → Clock × List (Spawned x)
  unfolding new_block_available
  run_calls [] t = (t, [])
  run_calls ((now, later, h) ∷ calls) t =
      let (t', spawned) = new_block_available now later h t in
      let (t'', rest) = run_calls calls t' in (t'', spawned ∷ rest)

  unfoldable pub is_before : ℕ → ℕ × ℕ × ClientHandler x → Bool
  is_before limit (now, later, h) = ltb now limit

  unfoldable pub spawns_nothing : Spawned x → Bool
  spawns_nothing s = elim s.jobs [
    | [] ↦ elim s.balances [ none ↦ true | some ws ↦ false ]
    | j ∷ js ↦ false
  ]

  run_calls_early :
      (calls : List (ℕ × ℕ × ClientHandler x)) (t : Clock)
      → all (is_before (t.last_template_time + template_delay)) calls ≡ true
      → (all spawns_nothing (run_calls calls t).1 ≡ true) × ((run_calls calls t).0 ≡ t)
  unfolding run_calls is_before spawns_nothing
  run_calls_early [] t h = (refl, refl)
  run_calls_early ((now, later, h) ∷ calls) t early =
      rw (new_block_available_early now later h t (ground (arith, early)))
        (ground (arith, early, run_calls_early calls t))

  -- After a block that was handed out, nothing is spawned for the blocks of the next 250
  -- milliseconds, however many there are.
  pub run_calls-new_block_available :
      (now later : ℕ) (h : ClientHandler x) (t : Clock) (calls : List (ℕ × ℕ × ClientHandler x))
      → t.last_template_time + template_delay ≤ now
      → all (is_before (now + template_delay)) calls ≡ true
      → all spawns_nothing (run_calls calls (new_block_available now later h t).0).1 ≡ true
  run_calls-new_block_available now later h t calls late early =
      let t' = (new_block_available now later h t).0 in
      (run_calls_early calls t' (rw ((new_block_available_late now later h t late).1) early)).0
