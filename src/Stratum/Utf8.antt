-- ===== src/Stratum/Utf8.antt =====
-- `String::from_utf8_lossy` of the standard library, which
-- bridge/src/stratum/stratum_listener/client_io/read_loop.rs calls on each read.
use rusty_kaspa_stratum.Shared.{
  ℕ, zero, suc, ◌+◌, ◌-◌, ◌*◌, List, [], ◌∷◌, Text, if◌then◌else◌, Bool, true, ◌&&◌, ltb, leb, ◌==◌,
  length, ◌≡◌, refl, arith, all, ◌++◌, ◌≤◌,
}

abbrev replacement : ℕ
replacement = 0xfffd

abbrev is_tail : ℕ → Bool
is_tail b = leb 0x80 b && leb b 0xbf

-- The second byte that may follow the first of three, and of four.
abbrev second_of_three : ℕ → ℕ → Bool
second_of_three a b =
    if a == 0xe0
    then leb 0xa0 b && leb b 0xbf
    else if a == 0xed
    then leb 0x80 b && leb b 0x9f
    else is_tail b

abbrev second_of_four : ℕ → ℕ → Bool
second_of_four a b =
    if a == 0xf0
    then leb 0x90 b && leb b 0xbf
    else if a == 0xf4
    then leb 0x80 b && leb b 0x8f
    else is_tail b

-- The first character of the bytes, and how many bytes it takes: the longest start of a character
-- that is not a whole one makes one replacement character.
abbrev decode_two : ℕ → List ℕ → ℕ × ℕ
decode_two a [] = (replacement, 1)
decode_two a (b ∷ rest) = if is_tail b then ((a - 0xc0) * 64 + (b - 0x80), 2) else (replacement, 1)

abbrev decode_three : ℕ → List ℕ → ℕ × ℕ
decode_three a [] = (replacement, 1)
decode_three a (b ∷ []) = if second_of_three a b then (replacement, 2) else (replacement, 1)
decode_three a (b ∷ c ∷ rest) =
    if second_of_three a b
    then (if is_tail c
        then ((a - 0xe0) * 4096 + (b - 0x80) * 64 + (c - 0x80), 3)
        else (replacement, 2))
    else (replacement, 1)

abbrev decode_four : ℕ → List ℕ → ℕ × ℕ
decode_four a [] = (replacement, 1)
decode_four a (b ∷ []) = if second_of_four a b then (replacement, 2) else (replacement, 1)
decode_four a (b ∷ c ∷ []) =
    if second_of_four a b
    then (if is_tail c then (replacement, 3) else (replacement, 2))
    else (replacement, 1)
decode_four a (b ∷ c ∷ d ∷ rest) =
    if second_of_four a b
    then (if is_tail c
        then (if is_tail d
            then ((a - 0xf0) * 262144 + (b - 0x80) * 4096 + (c - 0x80) * 64 + (d - 0x80), 4)
            else (replacement, 3))
        else (replacement, 2))
    else (replacement, 1)

abbrev decode_first : ℕ → List ℕ → ℕ × ℕ
decode_first a rest =
    if ltb a 0x80
    then (a, 1)
    else if leb 0xc2 a && leb a 0xdf
    then decode_two a rest
    else if leb 0xe0 a && leb a 0xef
    then decode_three a rest
    else if leb 0xf0 a && leb a 0xf4
    then decode_four a rest
    else (replacement, 1)

abbrev drop : ℕ → List ℕ → List ℕ
drop zero bytes = bytes
drop (suc n) [] = []
drop (suc n) (b ∷ bytes) = drop n bytes

-- Each turn takes a byte at least, so the number of bytes is fuel enough.
unfoldable pub lossy : ℕ → List ℕ → Text
lossy zero bytes = []
lossy (suc n) [] = []
lossy (suc n) (a ∷ rest) =
    let (c, taken) = decode_first a rest in c ∷ lossy n (drop (taken - 1) rest)

unfoldable pub from_utf8_lossy : List ℕ → Text
unfolding lossy
from_utf8_lossy bytes = lossy (length bytes) bytes

-- Bytes of ASCII are read as they are.
pub from_utf8_lossy_ascii :
    (bytes : List ℕ) → all (λ b. ltb b 0x80) bytes ≡ true → from_utf8_lossy bytes ≡ bytes
unfolding from_utf8_lossy lossy
from_utf8_lossy_ascii [] ascii = refl
from_utf8_lossy_ascii (a ∷ bytes) ascii = ground (arith, from_utf8_lossy_ascii bytes)

-- A character of two bytes is read as one, and as two replacement characters when its bytes come in
-- two reads.
pub from_utf8_lossy_cut :
    (a b : ℕ)
    → 0xc2 ≤ a
    → a ≤ 0xdf
    → 0x80 ≤ b
    → b ≤ 0xbf
    → (from_utf8_lossy (a ∷ b ∷ []) ≡ ((a - 0xc0) * 64 + (b - 0x80)) ∷ [])
      × (from_utf8_lossy (a ∷ []) ++ from_utf8_lossy (b ∷ []) ≡ 0xfffd ∷ 0xfffd ∷ [])
unfolding from_utf8_lossy lossy
from_utf8_lossy_cut a b h k h' k' = ground arith
