-- ===== src/Stratum/LineCodec/Chunks.antt =====
-- The lines do not depend on how the input is cut into chunks.
use rusty_kaspa_stratum.Shared.{
  append_assoc, append_nil, ℕ, zero, suc, ◌≤◌, ◌<◌, ◌≡◌, refl, ◌∙◌, sym, none, some, List, [], ◌∷◌,
  ◌++◌, Text, if◌then◌else◌, ◌==◌, length, arith, Bool-cases, Option-cases, inl, inr, true, false,
  ◌⊎◌,
}
use rusty_kaspa_stratum.Stratum.LineCodec.{split_line, push_line, drain, push_lossy_and_drain_lines}

-- The reader character by character: the lines of a text that comes after the open line `line`.
unfoldable pub scan : Text → Text → List Text × Text
scan line [] = ([], line)
scan line (c ∷ s) =
    let next = scan [] s in
    if c == 10 then (push_line line next.0, next.1) else scan (line ++ c ∷ []) s

pub scan-open : (line s : Text) → split_line s ≡ none → scan line s ≡ ([], line ++ s)
unfolding scan split_line
scan-open line [] h = rw (append_nil line)
scan-open line (c ∷ s) h = elim (Bool-cases (c == 10)) [
  | inl end ↦ absurd (ground (arith, end))
  | inr more ↦ elim (Option-cases (split_line s)) [
    | inl none_left ↦
        rw more (scan-open (line ++ c ∷ []) s none_left ∙ rw (append_assoc line (c ∷ []) s))
    | inr (p, found) ↦ absurd (ground (arith, more, found))
  ]
]

-- The first line of a text, by its first character.
split-cons :
    (c : ℕ) (s before after : Text)
    → split_line (c ∷ s) ≡ some (before, after)
    → (((c == 10) ≡ true) × (before ≡ []) × (s ≡ after))
      ⊎ ((line : Text) × ((c == 10) ≡ false)
          × (split_line s ≡ some (line, after))
          × (before ≡ c ∷ line))
unfolding split_line
split-cons c s before after h = elim (Bool-cases (c == 10)) [
  | inl end ↦ inl (end, ground (arith, end), ground (arith, end))
  | inr more ↦ elim (Option-cases (split_line s)) [
    | inl none_left ↦ absurd (ground (arith, more, none_left))
    | inr ((line, rest), found) ↦
        inr (line, more, ground (arith, more, found), ground (arith, more, found))
  ]
]

scan-split :
    (line s before after : Text)
    → split_line s ≡ some (before, after)
    → scan line s ≡ (push_line (line ++ before) (scan [] after).0, (scan [] after).1)
unfolding scan split_line
scan-split line [] before after h = absurd (cc)
scan-split line (c ∷ s) before after h = elim (split-cons c s before after h) [
  | inl (end, b, a) ↦ rw (end, b, a, append_nil line)
  | inr (p, more, found, b) ↦
      rw (more, b) (scan-split (line ++ c ∷ []) s p after found ∙ rw (append_assoc line (c ∷ []) p))
]

length-split_line :
    (s before after : Text) → split_line s ≡ some (before, after) → length after < length s
unfolding split_line
length-split_line [] before after h = absurd (cc)
length-split_line (c ∷ s) before after h = elim (split-cons c s before after h) [
  | inl (end, b, a) ↦ rw a (omega arith)
  | inr (p, more, found, b) ↦ omega (arith, length-split_line s p after found)
]

drain-scan : (n : ℕ) (s : Text) → length s ≤ n → drain n s ≡ scan [] s
unfolding drain split_line
drain-scan zero [] h = sym (scan-open [] [] refl)
drain-scan zero (c ∷ s) h = absurd (omega arith)
drain-scan (suc n) s h = elim (Option-cases (split_line s)) [
  | inl none_left ↦ rw none_left (sym (scan-open [] s none_left))
  | inr ((line, rest), found) ↦
      let shorter : length rest ≤ n = omega (arith, length-split_line s line rest found) in
      rw (found, drain-scan n rest shorter) (sym (scan-split [] s line rest found))
]

-- The loop gives the lines and the buffer that a reader character by character gives: it does not
-- stop early for want of fuel.
pub push_lossy_and_drain_lines-scan :
    (buffer chunk : Text) → push_lossy_and_drain_lines buffer chunk ≡ scan [] (buffer ++ chunk)
unfolding push_lossy_and_drain_lines
push_lossy_and_drain_lines-scan buffer chunk =
    drain-scan (length (buffer ++ chunk)) (buffer ++ chunk) (omega arith)

split_line-append :
    (line : Text) (c : ℕ)
    → split_line line ≡ none
    → (c == 10) ≡ false
    → split_line (line ++ c ∷ []) ≡ none
unfolding split_line
split_line-append [] c h d = rw d
split_line-append (x ∷ line) c h d = elim (Bool-cases (x == 10)) [
  | inl end ↦ absurd (ground (arith, end))
  | inr more ↦ elim (Option-cases (split_line line)) [
    | inl none_left ↦ rw (more, split_line-append line c none_left d)
    | inr (p, found) ↦ absurd (ground (arith, more, found))
  ]
]

scan_left : (line s : Text) → split_line line ≡ none → split_line (scan line s).1 ≡ none
unfolding scan split_line
scan_left line [] h = h
scan_left line (c ∷ s) h = elim (Bool-cases (c == 10)) [
  | inl end ↦ rw end (scan_left [] s refl)
  | inr more ↦ rw more (scan_left (line ++ c ∷ []) s (split_line-append line c h more))
]

push_line-append : (line : Text) (x y : List Text) → push_line line (x ++ y) ≡ push_line line x ++ y
unfolding push_line
push_line-append line x y = ground arith

scan-append :
    (line a b : Text)
    → scan line (a ++ b)
      ≡ ((scan line a).0 ++ (scan (scan line a).1 b).0, (scan (scan line a).1 b).1)
unfolding scan
scan-append line [] b = refl
scan-append line (c ∷ a) b = elim (Bool-cases (c == 10)) [
  | inl end ↦
      rw (end, scan-append [] a b, push_line-append line (scan [] a).0 (scan (scan [] a).1 b).0)
  | inr more ↦ rw more (scan-append (line ++ c ∷ []) a b)
]

-- The buffer that is left holds no line end.
pub push_lossy_and_drain_lines_left :
    (buffer chunk : Text) → split_line (push_lossy_and_drain_lines buffer chunk).1 ≡ none
unfolding split_line
push_lossy_and_drain_lines_left buffer chunk =
    rw (push_lossy_and_drain_lines-scan buffer chunk) (scan_left [] (buffer ++ chunk) refl)

-- Two chunks give the lines, and leave the buffer, that they give as one chunk: the second is read
-- with what the first has left.
pub push_lossy_and_drain_lines-append :
    (buffer a b : Text)
    → push_lossy_and_drain_lines buffer (a ++ b) ≡ (
        let (out, left) = push_lossy_and_drain_lines buffer a in
        let (more, rest) = push_lossy_and_drain_lines left b in (out ++ more, rest))
unfolding split_line
push_lossy_and_drain_lines-append buffer a b =
    let left = (scan [] (buffer ++ a)).1 in
    let closed : scan [] left ≡ ([], left) = scan-open [] left (scan_left [] (buffer ++ a) refl) in
    rw (
      push_lossy_and_drain_lines-scan buffer (a ++ b),
      push_lossy_and_drain_lines-scan buffer a,
      push_lossy_and_drain_lines-scan left b,
      sym (append_assoc buffer a b),
      scan-append [] (buffer ++ a) b,
      scan-append [] left b,
      closed,
    )
