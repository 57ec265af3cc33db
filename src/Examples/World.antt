-- ===== src/Examples/World.antt =====
-- The code outside the repository, as small concrete functions: a header is its nonce, and the proof
-- of work of a nonce is the nonce.
use rusty_kaspa_stratum.Shared.{
  ℕ, ◌+◌, ◌*◌, ◌/◌, ◌∷◌, [], none, some, false, true, not, ltb, leb, ◌==◌, codes, replicate,
}
use rusty_kaspa_stratum.Mining.JobParams.{hex_of}
use rusty_kaspa_stratum.External.{External, Block}
use rusty_kaspa_stratum.Mining.State.{Job, MiningState}
use rusty_kaspa_stratum.Rpc.{JsonRpcEvent, string}
use rusty_kaspa_stratum.Shares.Stats.{new_stats}
use rusty_kaspa_stratum.Dedupe.Submits
use rusty_kaspa_stratum.Submit.Session.{Session}
use rusty_kaspa_stratum.Submit.Parse.{PreparedSubmit}
use rusty_kaspa_stratum.Submit.BlockSubmit.{SubmitAnswer, report}

-- The bits stand for the network target 16; a header is heavier by its transactions' number.
abbrev pub world : External
world = record {
  Header = ℕ × ℕ;
  Transactions = ℕ;
  Number = ℕ;
  Float = ℕ;
  bits = λ h. 0x03000010;
  blue_score = λ h. 9;
  version = λ h. 1;
  parents_by_level = λ h. [];
  hash_merkle_root = λ h. [];
  accepted_id_merkle_root = λ h. [];
  utxo_commitment = λ h. [];
  timestamp = λ h. 0x0102030405060708;
  daa_score = λ h. 0;
  blue_work = λ h. [];
  pruning_point = λ h. [];
  set_nonce = λ h nonce. (h.0, nonce);
  header_hash = λ h. b'h' ∷ [];
  check_pow = λ h nonce. (false, h.0 + nonce);
  block_hash = λ bytes. replicate 32 0xab;
  hash_to_string = hex_of;
  hex_encode = hex_of;
  as_u64 = λ n. some n;
  from_i32 = λ n. n;
  from_u64 = λ n. n;
  from_f64 = λ d. some d;
  zero = 0;
  add = λ a b. a + b;
  positive = λ a. ltb 0 a;
  f64 = λ n. n;
  mul = λ a b. a * b;
  div = λ a b. a / b;
  le = λ a b. leb a b;
  ne = λ a b. not (a == b);
  trunc_u64 = λ a. a;
  trunc_u128 = λ a. a;
}

abbrev pub submit_block : Block world → SubmitAnswer
submit_block b = report true

-- A job whose proof of work is `weight` above the nonce.
abbrev pub job_of : ℕ → Job (Block world)
job_of weight = record {
  block = record { header = (weight, 0); transactions = 0 };
  pre_pow_hash = [];
}

-- Jobs 1 and 2 are stored; the target of the pool is 100.
abbrev pub mining : MiningState (Block world) (ℕ × ℕ) ℕ
mining = record {
  jobs = (1, job_of 0) ∷ (2, job_of 500) ∷ [];
  job_ids = (1, 1) ∷ (2, 2) ∷ [];
  job_counter = 2;
  big_diff = 0;
  initialized = true;
  use_big_job = false;
  connect_time = 0;
  stratum_diff = some (record { hash_value = 3; diff_value = 4; target_value = 100 });
  max_jobs = 300;
  last_header = none;
}

abbrev pub session : Session world
session = record {
  handler = record {
    stats = [];
    overall = new_stats 0 (codes "overall") 0;
    duplicate_submit_guard = Submits.new 100 50;
  };
  ctx = record {
    remote_port = 5555;
    identity = record {
      wallet_addr = codes "w";
      worker_name = codes "rig";
      canxium_addr = [];
      remote_app = [];
    };
    client_id = 3;
    extranonce = [];
    state = mining;
    disconnecting = false;
    writes = λ n. true;
    attempts = 0;
    sent = [];
  };
  metrics = [];
  tasks = [];
  diff_tasks = [];
}

-- Nonce 0x20 for job 2.
abbrev pub event : JsonRpcEvent ℕ
event = record {
  id = some (string (codes "1"));
  jsonrpc = codes "2.0";
  method = codes "mining.submit";
  params = string (codes "rig") ∷ string (codes "2") ∷ string (codes "20") ∷ [];
}

abbrev pub prep : PreparedSubmit world
prep = record {
  job_id = 2;
  job = job_of 500;
  nonce_val = 32;
  final_nonce_str = codes "20";
  submit_key = codes "rig|2|20";
}
