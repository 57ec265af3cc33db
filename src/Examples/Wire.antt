-- ===== src/Examples/Wire.antt =====
-- Messages, lines and keys.
use rusty_kaspa_stratum.Shared.{
  ℕ, ◌≡◌, refl, ◌≢◌, true, Option, none, some, [], ◌∷◌, ◌++◌, Text, codes, arith, map, ok, Bool,
  ltb, if◌then◌else◌,
}
use rusty_kaspa_stratum.Stratum.LineCodec.{push_lossy_and_drain_lines}
use rusty_kaspa_stratum.Stratum.LineCodec.Chunks.{push_lossy_and_drain_lines-append}
use rusty_kaspa_stratum.Submit.Parse.{parse_nonce, submit_key_of}
use rusty_kaspa_stratum.Submit.Parse.Keys.{to_lower, same_nonce_other_key}
use rusty_kaspa_stratum.Submit.BlockSubmit.Confirm.{Settles, confirm_blue, confirm_blue-Settles}
use rusty_kaspa_stratum.Shares.Stats.{new_stats}
use rusty_kaspa_stratum.Submit.Session.{
  Session, ConfirmTask, update_stats, update_overall, record_metric,
}
use rusty_kaspa_stratum.Shared
use rusty_kaspa_stratum.Examples.World.{world, session}

-- A message with a NUL in it.
abbrev dirty : Text
dirty = b'{' ∷ 0 ∷ b'}' ∷ []

push_lossy_and_drain_lines-append_example :
    push_lossy_and_drain_lines (codes "{") (codes "}\n[" ++ codes "]\n") ≡ (
      let (out, left) = push_lossy_and_drain_lines (codes "{") (codes "}\n[") in
      let (more, rest) = push_lossy_and_drain_lines left (codes "]\n") in (out ++ more, rest))
push_lossy_and_drain_lines-append_example =
    push_lossy_and_drain_lines-append (codes "{") (codes "}\n[") (codes "]\n")

same_nonce_other_key_example :
    (parse_nonce (map to_lower (codes "1F")) ≡ parse_nonce (codes "1F"))
    × (submit_key_of (codes "rig") 7 (map to_lower (codes "1F"))
        ≢ submit_key_of (codes "rig") 7 (codes "1F"))
same_nonce_other_key_example =
    same_nonce_other_key (codes "rig") 7 (codes "1F") (λ h. ground (arith, h))

-- The third attempt is answered with blue, those before with an error.
abbrev late_blue : ℕ → Option Bool
late_blue n = if ltb n 2 then none else some true

abbrev confirm_task : ConfirmTask
confirm_task = record { worker = codes "rig"; nonce = 32; block_score = 9; block_hash = codes "h" }

abbrev one_worker : Session world
one_worker = record session {
  handler = record session.handler { stats = (codes "rig", new_stats 0 (codes "rig") 0) ∷ [] };
}

confirm_blue-Settles_example :
    Settles 30 late_blue confirm_task one_worker (confirm_blue late_blue confirm_task one_worker).1
confirm_blue-Settles_example = confirm_blue-Settles late_blue confirm_task one_worker

confirm_blue_test :
    (map (λ e. e.1.blocks_found) (confirm_blue late_blue confirm_task one_worker).1.stats ≡ 1 ∷ [])
    × ((confirm_blue late_blue confirm_task one_worker).1.overall.blocks_found ≡ 1)
unfolding confirm_blue new_stats update_stats update_overall record_metric Shared.get Shared.insert
confirm_blue_test = (refl, refl)
