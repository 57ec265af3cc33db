-- ===== src/Node/CoinbaseTag/Bounds.antt =====
-- What can stand in the coinbase tag.
use rusty_kaspa_stratum.Shared.{
  ℕ, zero, suc, ◌≤◌, ◌≡◌, refl, Bool, true, ◌||◌, Option, none, some, [], ◌∷◌, Text, arith, length,
  all, ◌==◌, trim, trim_matches, trim_start_matches, trim_end_matches, is_empty, Bool-cases, inl,
  inr,
}
use rusty_kaspa_stratum.Node.CoinbaseTag.{
  pushed, is_allowed, collect, when_some, with_suffix, sanitize_coinbase_tag_suffix,
  build_coinbase_tag_bytes, max_coinbase_tag_suffix_len,
}

-- A text of allowed characters, no longer than this.
IsShort : ℕ → Text → Type 0
IsShort n s = (length s ≤ n) × (all is_allowed s ≡ true)

trim_start_matches-IsShort :
    (p : ℕ → Bool) (n : ℕ) (s : Text) → IsShort n s → IsShort n (trim_start_matches p s)
unfolding trim_start_matches IsShort
trim_start_matches-IsShort p n [] h = h
trim_start_matches-IsShort p n (c ∷ s) h = ground (arith, h, trim_start_matches-IsShort p n s)

trim_end_matches-IsShort :
    (p : ℕ → Bool) (n : ℕ) (s : Text) → IsShort n s → IsShort n (trim_end_matches p s)
unfolding trim_end_matches IsShort
trim_end_matches-IsShort p n [] h = h
trim_end_matches-IsShort p zero (c ∷ s) h = absurd (omega (arith, h.0))
trim_end_matches-IsShort p (suc n) (c ∷ s) h = ground (arith, h, trim_end_matches-IsShort p n s)

pushed_allowed : (ch c : ℕ) → pushed ch ≡ some c → is_allowed c ≡ true
unfolding pushed is_allowed
pushed_allowed ch c h = ground (arith, h)

elim_pushed-IsShort :
    (n : ℕ) (o : Option ℕ) (skip take : Text)
    → ((c : ℕ) → o ≡ some c → is_allowed c ≡ true)
    → IsShort (suc n) skip
    → IsShort n take
    → IsShort (suc n) (elim o [ none ↦ skip | some c ↦ c ∷ take ])
unfolding IsShort
elim_pushed-IsShort n none skip take allowed hs ht = hs
elim_pushed-IsShort n (some c) skip take allowed hs ht = ground (arith, ht, allowed c refl)

collect-IsShort : (room : ℕ) (s : Text) → IsShort room (collect room s)
unfolding collect IsShort
collect-IsShort zero s = (omega arith, refl)
collect-IsShort (suc room) [] = (omega arith, refl)
collect-IsShort (suc room) (ch ∷ s) =
    elim_pushed-IsShort room (pushed ch) (collect (suc room) s) (collect room s) (pushed_allowed ch)
      (collect-IsShort (suc room) s) (collect-IsShort room s)

trim_matches-IsShort :
    (p : ℕ → Bool) (n : ℕ) (s : Text) → IsShort n s → IsShort n (trim_matches p s)
unfolding trim_matches
trim_matches-IsShort p n s h =
    trim_end_matches-IsShort p n (trim_start_matches p s) (trim_start_matches-IsShort p n s h)

-- A character of a coinbase tag: an allowed one, or the slash before the suffix.
is_tag_character : ℕ → Bool
is_tag_character c = is_allowed c || c == b'/'

all_tag_characters : (s : Text) → all is_allowed s ≡ true → all is_tag_character s ≡ true
unfolding is_tag_character
all_tag_characters [] h = refl
all_tag_characters (c ∷ s) h = ground (arith, h, all_tag_characters s)

IsTag : Text → Type 0
IsTag s = (length s ≤ 75) × (all is_tag_character s ≡ true)

when_some-IsTag : (s : Text) → IsShort 64 s → IsTag (with_suffix (when_some s))
unfolding IsShort IsTag is_tag_character is_allowed
when_some-IsTag [] h = (omega arith, refl)
when_some-IsTag (c ∷ s) h = (omega (arith, h.0), all_tag_characters (c ∷ s) (h.1))

sanitize_coinbase_tag_suffix-IsTag :
    (input : Text) → IsTag (with_suffix (sanitize_coinbase_tag_suffix input))
unfolding sanitize_coinbase_tag_suffix IsShort
sanitize_coinbase_tag_suffix-IsTag input =
    let suffix = trim_start_matches (λ c. c == b'/') (trim input) in
    let kept = trim_matches (λ c. c == b'_') (collect max_coinbase_tag_suffix_len suffix) in
    let kept-IsShort =
      trim_matches-IsShort (λ c. c == b'_') 64 (collect 64 suffix) (collect-IsShort 64 suffix) in
    elim (Bool-cases (is_empty suffix)) [
      | inl h ↦ rw h (when_some-IsTag [] (omega arith, refl))
      | inr h ↦ rw h (when_some-IsTag kept kept-IsShort)
    ]

-- The tag of a block has at most 75 characters, whatever suffix was configured, and each of them is
-- an ASCII letter or digit, a dot, an underscore, a dash or a slash.
build_coinbase_tag_bytes-IsTag : (suffix : Option Text) → IsTag (build_coinbase_tag_bytes suffix)
unfolding build_coinbase_tag_bytes IsTag is_tag_character is_allowed
build_coinbase_tag_bytes-IsTag none = (omega arith, refl)
build_coinbase_tag_bytes-IsTag (some suffix) = sanitize_coinbase_tag_suffix-IsTag suffix
