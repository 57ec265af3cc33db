-- ===== src/Stratum/LineCodec.antt =====
-- bridge/src/stratum/stratum_line_codec.rs: lines are cut out of what has come in. The loop of
-- `push_lossy_and_drain_lines` drops a character at each turn, so it runs on the length of the text.
pub mod Chunks
use rusty_kaspa_stratum.Shared.{
  ℕ, zero, suc, Option, none, some, List, [], ◌∷◌, ◌++◌, Text, codes, if◌then◌else◌, ◌==◌, ◌||◌,
  is_empty, trim, length, starts_with, Bool, text_eq, map, not, ◌+◌, ◌*◌, ltb, true, false,
}

-- The text before the first line end and the text after it.
unfoldable pub split_line : Text → Option (Text × Text)
split_line [] = none
split_line (c ∷ s) =
    let later = split_line s in
    if c == 10
    then some ([], s)
    else elim later [ none ↦ none | some (line, rest) ↦ some (c ∷ line, rest) ]

-- A trimmed line goes out, unless nothing is left of it.
unfoldable pub push_line : Text → List Text → List Text
push_line line out = if is_empty (trim line) then out else trim line ∷ out

-- One turn of the loop, on the cut of the buffer; `loop` is the rest of it.
abbrev pub drain_step : (Text → List Text × Text) → Text → Option (Text × Text) → List Text × Text
drain_step loop buffer none = ([], buffer)
drain_step loop buffer (some (line, rest)) =
    let (out, left) = loop rest in (push_line line out, left)

unfoldable pub drain : ℕ → Text → List Text × Text
drain zero buffer = ([], buffer)
drain (suc n) buffer = drain_step (drain n) buffer (split_line buffer)

-- The lines that come out, and the new buffer.
unfoldable pub push_lossy_and_drain_lines : Text → Text → List Text × Text
push_lossy_and_drain_lines buffer chunk = drain (length (buffer ++ chunk)) (buffer ++ chunk)

unfoldable pub strip_nul_bytes : List ℕ → List ℕ
strip_nul_bytes [] = []
strip_nul_bytes (b ∷ bytes) = if b == 0 then strip_nul_bytes bytes else b ∷ strip_nul_bytes bytes

abbrev pub max_stratum_line_bytes : ℕ
max_stratum_line_bytes = 64 * 1024

-- `char::len_utf8`, and `len` of a text in UTF-8
unfoldable pub char_len : ℕ → ℕ
char_len c = if ltb c 0x80 then 1 else if ltb c 0x800 then 2 else if ltb c 0x10000 then 3 else 4

unfoldable pub byte_len : Text → ℕ
byte_len [] = 0
byte_len (c ∷ s) = char_len c + byte_len s

-- The buffer after the call, and whether the data were appended.
unfoldable pub append_line_data : Text → Text → Text × Bool
append_line_data line_buffer data_text =
    if ltb max_stratum_line_bytes (byte_len line_buffer + byte_len data_text)
    then (line_buffer, false)
    else (line_buffer ++ data_text, true)

unfoldable pub line_looks_like_http : Text → Bool
line_looks_like_http line =
    let t = trim line in
    starts_with t (codes "PRI * HTTP/2.0")
    || starts_with t (codes "PRI * HTTP/2")
    || text_eq t (codes "SM")
    || starts_with t (codes "GET ")
    || starts_with t (codes "POST ")
    || starts_with t (codes "PUT ")
    || starts_with t (codes "DELETE ")
    || starts_with t (codes "HEAD ")
    || starts_with t (codes "OPTIONS ")
