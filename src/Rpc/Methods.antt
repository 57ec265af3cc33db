-- ===== src/Rpc/Methods.antt =====
-- Method names and their enum.
use rusty_kaspa_stratum.Shared.{◌≡◌, arith, Text, text_eq_iff, codes}
use rusty_kaspa_stratum.Rpc.{from_text, to_text}

-- The text of the method that a text is read as is that text.
to_text-from_text : (s : Text) → to_text (from_text s) ≡ s
unfolding to_text from_text
to_text-from_text s = ground (
  arith,
  text_eq_iff s (codes "mining.subscribe"),
  text_eq_iff s (codes "mining.extranonce.subscribe"),
  text_eq_iff s (codes "mining.authorize"),
  text_eq_iff s (codes "mining.submit"),
  text_eq_iff s (codes "mining.set_difficulty"),
  text_eq_iff s (codes "mining.notify"),
  text_eq_iff s (codes "mining.set_extranonce"),
)
