-- ===== src/Shared/Chars.antt =====
-- Characters and texts as the standard library treats them: white space, `trim`, `starts_with`,
-- `strip_prefix`, `split` and `replace`.
use Prim.Native.Nat.{ℕ}
use mathlib.Core.Bool.{Bool, true, false, ◌&&◌, ◌||◌}
use mathlib.Core.Option.{Option, none, some}
use mathlib.Core.List.{[], ◌∷◌}
use rusty_kaspa_stratum.Shared.Tests.{Text, ◌==◌, leb, if◌then◌else◌}

-- `char::is_whitespace`
unfoldable pub is_whitespace : ℕ → Bool
is_whitespace c =
    leb 9 c && leb c 13
    || c == 32
    || c == 0x85
    || c == 0xa0
    || c == 0x1680
    || leb 0x2000 c && leb c 0x200a
    || c == 0x2028
    || c == 0x2029
    || c == 0x202f
    || c == 0x205f
    || c == 0x3000

unfoldable pub trim_start_matches : (ℕ → Bool) → Text → Text
trim_start_matches p [] = []
trim_start_matches p (c ∷ s) = if p c then trim_start_matches p s else c ∷ s

-- A character at the end that matches is dropped, if all that follow it do.
unfoldable pub trim_end_matches : (ℕ → Bool) → Text → Text
trim_end_matches p [] = []
trim_end_matches p (c ∷ s) = elim (trim_end_matches p s) [
  | [] ↦ if p c then [] else c ∷ []
  | d ∷ t ↦ c ∷ d ∷ t
]

unfoldable pub trim_matches : (ℕ → Bool) → Text → Text
unfolding trim_start_matches trim_end_matches
trim_matches p s = trim_end_matches p (trim_start_matches p s)

unfoldable pub trim : Text → Text
unfolding trim_matches is_whitespace
trim s = trim_matches is_whitespace s

abbrev pub is_empty : Text → Bool
is_empty [] = true
is_empty (c ∷ s) = false

unfoldable pub strip_prefix : Text → Text → Option Text
strip_prefix [] s = some s
strip_prefix (p ∷ ps) [] = none
strip_prefix (p ∷ ps) (c ∷ s) = if c == p then strip_prefix ps s else none

unfoldable pub starts_with : Text → Text → Bool
unfolding strip_prefix
starts_with s p = elim (strip_prefix p s) [ none ↦ false | some t ↦ true ]

-- `str::contains` of a text
unfoldable pub contains_text : Text → Text → Bool
unfolding starts_with
contains_text [] p = starts_with [] p
contains_text (c ∷ s) p = starts_with (c ∷ s) p || contains_text s p

-- `s.replace("0x", "")`: the occurrences from the left, not overlapping.
unfoldable pub remove_0x : Text → Text
remove_0x [] = []
remove_0x (c ∷ []) = c ∷ []
remove_0x (c ∷ d ∷ s) =
    let cut = remove_0x s in
    let kept = c ∷ remove_0x (d ∷ s) in if c == b'0' && d == b'x' then cut else kept
