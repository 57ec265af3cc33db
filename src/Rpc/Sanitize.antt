-- ===== src/Rpc/Sanitize.antt =====
-- What the sanitiser does to a message.
use rusty_kaspa_stratum.Shared.{◌≡◌, refl, false, [], ◌∷◌, arith, Text, length}
use rusty_kaspa_stratum.Rpc.{unwanted, sanitize_json_input, unmarshal_event, any}

sanitize_clean : (s : Text) → any unwanted s ≡ false → sanitize_json_input s ≡ s
unfolding sanitize_json_input
sanitize_clean [] h = refl
sanitize_clean (c ∷ s) h = ground (arith, sanitize_clean s)

-- The test before the parser is a shortcut: every message is given to the parser as if it had
-- been sanitised.
unmarshal_event-sanitize {ℓ} :
    {A : Type ℓ} (from_str : Text → A) (input : Text)
    → unmarshal_event from_str input ≡ from_str (sanitize_json_input input)
unfolding unmarshal_event
unmarshal_event-sanitize from_str input = ground (arith, sanitize_clean input)

-- A sanitised message has no control character but line ends, and as many characters as what came
-- in.
pub sanitize_json_input_clean :
    (s : Text)
    → (any unwanted (sanitize_json_input s) ≡ false) × (length (sanitize_json_input s) ≡ length s)
unfolding sanitize_json_input
sanitize_json_input_clean [] = (refl, refl)
sanitize_json_input_clean (c ∷ s) = ground (arith, sanitize_json_input_clean s)
