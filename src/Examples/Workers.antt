-- ===== src/Examples/Workers.antt =====
-- Workers and their difficulty.
use rusty_kaspa_stratum.Shared.{
  ℕ, ◌-◌, ◌*◌, ◌/◌, ◌^◌, refl, true, false, [], ◌∷◌, Text, codes, arith, HashMap, get, text_key,
  ltb, leb, ◌==◌, if◌then◌else◌,
}
use rusty_kaspa_stratum.Shares.Stats.{WorkStats, new_stats}
use rusty_kaspa_stratum.Shares.Vardiff.{F64}
use rusty_kaspa_stratum.Shares.Lifecycle.{vardiff_tick}
use rusty_kaspa_stratum.Shares.Lifecycle.Workers.{IsAboveOne, vardiff_tick-IsAboveOne}
use rusty_kaspa_stratum.Submit.Session.{Session}
use rusty_kaspa_stratum.Examples.World.{world, session}

-- Whole numbers in place of `f64`.
abbrev whole : F64 ℕ
whole = record {
  is_finite = λ a. true;
  lt = ltb;
  le = leb;
  eq = λ a b. a == b;
  mul = λ a b. a * b;
  div = λ a b. a / b;
  sub = λ a b. a - b;
  abs = λ a. a;
  max = λ a b. if ltb a b then b else a;
  sqrt = λ a. a;
  log2 = λ a. a;
  ceil = λ a. a;
  floor = λ a. a;
  pow2 = λ a. 2 ^ a;
  zero = 0;
  one = 1;
  sixty = 60;
  tenth = 0;
  epsilon = 0;
  vardiff_min_elapsed_secs = 30;
  vardiff_max_elapsed_secs_no_shares = 90;
  vardiff_min_shares = 3;
  vardiff_lower_ratio = 0;
  vardiff_upper_ratio = 1;
  vardiff_max_step_up = 2;
  vardiff_max_step_down = 1;
}

abbrev worker : WorkStats ℕ
worker = record (new_stats 0 (codes "rig") 0) { min_diff = 8 }

abbrev workers : HashMap Text (WorkStats ℕ)
workers = (codes "rig", worker) ∷ []

workers-IsAboveOne : IsAboveOne whole workers
unfolding IsAboveOne get
workers-IsAboveOne name v e = ground (arith, e)

vardiff_tick-IsAboveOne_example :
    IsAboveOne whole (vardiff_tick whole (λ n. n) (λ n. n) 95 10 false workers)
vardiff_tick-IsAboveOne_example =
    vardiff_tick-IsAboveOne whole refl (λ n. n) (λ n. n) 95 10 false workers workers-IsAboveOne

-- The session in which the worker is known.
abbrev busy : Session world
busy = record session { handler = record session.handler { stats = workers } }
