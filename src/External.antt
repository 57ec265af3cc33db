-- ===== src/External.antt =====
-- What the bridge uses of code outside the repository: the node's block header and its hash
-- (kaspa_consensus_core, kaspa_hashes), its proof of work (kaspa_pow), hex, serde_json's `Number`, and
-- `f64`.
use rusty_kaspa_stratum.Shared.{ℕ, Bool, Option, List, Text}

pub record External : Type 1 where
  pub Header : Type 0
  pub Transactions : Type 0
  pub Number : Type 0
  pub Float : Type 0
  -- header.bits, header.blue_score
  pub bits : Header → ℕ
  pub blue_score : Header → ℕ
  -- the other fields of a header; `parents_by_level` is expanded, a hash is the list of its bytes,
  -- and `blue_work` the list of its big-endian bytes
  pub version : Header → ℕ
  pub parents_by_level : Header → List (List (List ℕ))
  pub hash_merkle_root : Header → List ℕ
  pub accepted_id_merkle_root : Header → List ℕ
  pub utxo_commitment : Header → List ℕ
  pub timestamp : Header → ℕ
  pub daa_score : Header → ℕ
  pub blue_work : Header → List ℕ
  pub pruning_point : Header → List ℕ
  -- header.nonce = nonce
  pub set_nonce : Header → ℕ → Header
  -- kaspa_consensus_core::hashing::header::hash(header).to_string()
  pub header_hash : Header → Text
  -- PowState::new(header).check_pow(nonce), its value read as a big-endian number
  pub check_pow : Header → ℕ → Bool × ℕ
  -- BlockHash::new(), updated with these bytes, and finalized
  pub block_hash : List ℕ → List ℕ
  -- Hash::to_string, hex::encode
  pub hash_to_string : List ℕ → Text
  pub hex_encode : List ℕ → Text
  -- Number::as_u64, Number::from, Number::from_f64
  pub as_u64 : Number → Option ℕ
  pub from_i32 : ℕ → Number
  pub from_u64 : ℕ → Number
  pub from_f64 : Float → Option Number
  -- 0.0, + and the test `x > 0.0`
  pub zero : Float
  pub add : Float → Float → Float
  pub positive : Float → Bool
  -- an integer literal, *, /, the tests `<=` and `!=`, and the casts `as u64` and `as u128`
  pub f64 : ℕ → Float
  pub mul : Float → Float → Float
  pub div : Float → Float → Float
  pub le : Float → Float → Bool
  pub ne : Float → Float → Bool
  pub trunc_u64 : Float → ℕ
  pub trunc_u128 : Float → ℕ

-- kaspa_consensus_core::block::Block
pub record Block (x : External) : Type 0 where
  pub header : x.Header
  pub transactions : x.Transactions
