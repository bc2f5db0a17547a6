-- ===== src/Sqlsplit.antt =====
-- internal/sqlsplit/sqlsplit.go: a SQL script is split into statements on semicolons, but not
-- inside quotes, comments and dollar-quoted strings.
-- The position `i` of the source is kept as what stands before it since `start` (`piece`) and
-- what stands from it on (`rest`). Every skip gives the number of characters to move over.
pub mod Width
pub mod Scan
pub mod Opaque
pub mod Output
mod Tests
use duckstore.Prelude.{
  ℕ, zero, suc, ◌+◌, Bool, true, false, not, ◌&&◌, ◌||◌, List, [], ◌∷◌, ◌++◌, Option, none, some,
  length, take, drop, ◌==◌, if◌then◌else◌,
}
use duckstore.Prelude.Text.{
  Text, codes, within, is_empty, trim_space, cut_prefix, has_prefix, index, lines,
}

pub record Statement : Type 0 where
  pub sql : Text
  pub label : Text

-- The loop of `skipQuoted`, after the opening quote.
pub quoted_tail : ℕ → Text → ℕ
quoted_tail quote [] = 0
quoted_tail quote (c ∷ []) = 1
quoted_tail quote (c ∷ d ∷ s) =
    let escaped = 2 + quoted_tail quote s in
    let next = 1 + quoted_tail quote (d ∷ s) in
    if c == quote then (if d == quote then escaped else 1) else next

-- `skipQuoted` at an opening quote: `rest` begins with it.
pub skip_quoted : ℕ → Text → ℕ
unfolding quoted_tail
skip_quoted quote [] = 0
skip_quoted quote (c ∷ s) = 1 + quoted_tail quote s

-- `for i < n && script[i] != '\n'`
pub skip_line : Text → ℕ
skip_line [] = 0
skip_line (c ∷ s) = if c == b'\n' then 0 else 1 + skip_line s

-- The branch of a block comment, where `rest` begins with `/*`.
pub skip_block : Text → ℕ
unfolding index
skip_block rest = elim (index (drop 2 rest) (codes "*/")) [
  | none ↦ length rest
  | some end ↦ end + 4
]

-- `s[j] == '_'` or an ASCII letter; a digit too, but not as the first character.
pub is_tag : Bool → ℕ → Bool
is_tag first c =
    c == b'_' || within b'a' b'z' c || within b'A' b'Z' c || not first && within b'0' b'9' c

-- The loop over `j`: the length of the tag.
pub tag_length : Bool → Text → ℕ
unfolding is_tag
tag_length first [] = 0
tag_length first (c ∷ s) = if is_tag first c then 1 + tag_length false s else 0

-- `j < len(s) && s[j] == '$'`
abbrev pub starts_dollar : Text → Bool
starts_dollar [] = false
starts_dollar (c ∷ _) = c == b'$'

-- The end of `skipDollarQuoted`: the search for the closing tag, behind the opening one.
close_dollar : ℕ → Text → Text → ℕ
close_dollar j tag rest = elim (index (drop (j + 1) rest) tag) [
  | none ↦ length rest
  | some end ↦ j + 1 + end + length tag
]

-- `skipDollarQuoted` behind its loop, where `j` is the length passed over.
dollar_from : ℕ → Text → ℕ
dollar_from j rest =
    if starts_dollar (drop j rest) then close_dollar j (take (j + 1) rest) rest else 1

-- `skipDollarQuoted` at a dollar sign: `rest` begins with it.
pub skip_dollar_quoted : Text → ℕ
skip_dollar_quoted rest = dollar_from (1 + tag_length true (drop 1 rest)) rest

-- What the switch of `Split` does at one position.
pub data Move : Type 0 where
  advance : ℕ → Move
  cut : Move

-- The switch of `Split`, on the character `c` and what follows it.
pub move : ℕ → Text → Move
move c s =
    if c == b'\'' || c == b'"'
    then advance (skip_quoted c (c ∷ s))
    else if c == b'-' && has_prefix s (codes "-")
    then advance (skip_line (c ∷ s))
    else if c == b'/' && has_prefix s (codes "*")
    then advance (skip_block (c ∷ s))
    else if c == b'$'
    then advance (skip_dollar_quoted (c ∷ s))
    else if c == b';'
    then cut
    else advance 1

-- What the switch of `stripComments` does at one position.
pub data StripMove : Type 0 where
  copy : ℕ → StripMove
  omit : ℕ → StripMove
  stop : StripMove

-- The switch of `stripComments`, on the character `c` and what follows it.
pub strip_move : ℕ → Text → StripMove
strip_move c s =
    let block : StripMove = elim (index (drop 2 (c ∷ s)) (codes "*/")) [
      | none ↦ stop
      | some end ↦ omit (end + 4)
    ] in
    if c == b'\'' || c == b'"'
    then copy (skip_quoted c (c ∷ s))
    else if has_prefix (c ∷ s) (codes "--")
    then omit (skip_line (c ∷ s))
    else if has_prefix (c ∷ s) (codes "/*")
    then block
    else copy 1

-- The loop of `stripComments`, on fuel; `none` means that the fuel ran out.
pub strip_from : ℕ → Text → Text → Option Text
strip_from zero b s = none
strip_from (suc fuel) b [] = some b
strip_from (suc fuel) b (c ∷ s) = elim (strip_move c s) [
  | copy k ↦ strip_from fuel (b ++ take k (c ∷ s)) (drop k (c ∷ s))
  | omit k ↦ strip_from fuel b (drop k (c ∷ s))
  | stop ↦ some b
]

-- Each round moves on by a character at least, so one round for each and one for the end are
-- enough.
pub strip_comments : Text → Option Text
strip_comments s = strip_from (suc (length s)) [] s

-- The two tests of `appendStatement` on a trimmed line: the new `label` and the new `hasCode`.
next_label : Text → Bool → Text → Text
next_label label has_code t = elim (cut_prefix t (codes "-- step:")) [
  | none ↦ label
  | some after ↦ if not has_code then trim_space after else label
]

next_code : Bool → Text → Bool
next_code has_code t = has_code || not (is_empty t) && not (has_prefix t (codes "--"))

-- The loop of `appendStatement` over the lines, with its variables `label` and `hasCode`.
pub read_lines : Text → Bool → List Text → Text × Bool
unfolding next_label next_code
read_lines label has_code [] = (label, has_code)
read_lines label has_code (l ∷ ls) =
    let t = trim_space l in read_lines (next_label label has_code t) (next_code has_code t) ls

-- `appendStatement`; `none` if a loop ran out of fuel.
pub append_statement : List Statement → Text → Option (List Statement)
append_statement out piece =
    let (label, has_code) = read_lines [] false (lines piece) in
    elim (strip_comments piece) [
      | none ↦ none
      | some code ↦ some (
          if not has_code || is_empty (trim_space code)
          then out
          else out ++ record { sql = trim_space piece; label = label } ∷ [])
    ]

-- The loop of `Split`, on fuel.
pub split_from : ℕ → List Statement → Text → Text → Option (List Statement)
split_from zero out piece rest = none
split_from (suc fuel) out piece [] = append_statement out piece
split_from (suc fuel) out piece (c ∷ s) = elim (move c s) [
  | cut ↦ elim (append_statement out piece) [ none ↦ none | some out' ↦ split_from fuel out' [] s ]
  | advance k ↦ split_from fuel out (piece ++ take k (c ∷ s)) (drop k (c ∷ s))
]

pub split : Text → Option (List Statement)
split script = split_from (suc (length script)) [] [] script
