-- ===== src/Mining/Header.antt =====
-- bridge/src/mining/hasher.rs, `serialize_block_header`: the bytes that are hashed for a miner, without
-- the time stamp and the nonce.
use rusty_kaspa_stratum.Shared.{
  ℕ, List, [], ◌∷◌, ◌++◌, Text, if◌then◌else◌, ◌==◌, length, Result, ok,
}
use rusty_kaspa_stratum.External.{External, Block}
use rusty_kaspa_stratum.Mining.JobParams.{to_le_bytes}

-- The big-endian bytes without the zeros at the front.
unfoldable pub without_leading_zeros : List ℕ → List ℕ
without_leading_zeros [] = []
without_leading_zeros (b ∷ bytes) = if b == 0 then without_leading_zeros bytes else b ∷ bytes

abbrev pub concat : List (List ℕ) → List ℕ
concat [] = []
concat (p ∷ parents) = p ++ concat parents

-- Each level, with its length in front.
abbrev pub level_bytes : List (List (List ℕ)) → List ℕ
level_bytes [] = []
level_bytes (level ∷ levels) = to_le_bytes 8 (length level) ++ (concat level ++ level_bytes levels)

unfoldable pub header_bytes : (x : External) → x.Header → List ℕ
unfolding without_leading_zeros
header_bytes x header =
    let blue_work_bytes = without_leading_zeros (x.blue_work header) in
    concat (
      to_le_bytes 2 (x.version header)
      ∷ to_le_bytes 8 (length (x.parents_by_level header))
      ∷ level_bytes (x.parents_by_level header)
      ∷ x.hash_merkle_root header
      ∷ x.accepted_id_merkle_root header
      ∷ x.utxo_commitment header
      ∷ to_le_bytes 8 0
      ∷ to_le_bytes 4 (x.bits header)
      ∷ to_le_bytes 8 0
      ∷ to_le_bytes 8 (x.daa_score header)
      ∷ to_le_bytes 8 (x.blue_score header)
      ∷ to_le_bytes 8 (length blue_work_bytes)
      ∷ blue_work_bytes
      ∷ x.pruning_point header
      ∷ [])

-- No call in it fails.
unfoldable pub serialize_block_header : (x : External) → Block x → Result Text (List ℕ)
unfolding header_bytes
serialize_block_header x block = ok (x.block_hash (header_bytes x block.header))
