-- ===== src/Sqlsplit/Output.antt =====
-- The statements that internal/sqlsplit/sqlsplit.go returns.
use duckstore.Prelude.{
  ◌≡◌, ◌≢◌, ◌⊎◌, inl, inr, refl, sym, ◌∙◌, subst, Bool, true, false, List, [], ◌∷◌, ◌++◌, some,
  arith, All, All-append, Option-cases, Bool-cases,
}
use duckstore.Prelude.Text.{Text, trim_space, lines, is_empty}
use duckstore.Prelude.Text.Spaces.{IsBlank, trim_space-IsBlank, IsBlank-trim_space, lines-IsBlank}
use duckstore.Sqlsplit.{
  Statement, next_label, next_code, read_lines, strip_comments, append_statement, split,
}
use duckstore.Sqlsplit.Scan.{append_all, split_covers}

next_code-nil : (has_code : Bool) (t : Text) → t ≡ [] → next_code has_code t ≡ has_code
unfolding next_code
next_code-nil has_code t e = rw e (ground arith)

read_lines-IsBlank :
    (label : Text) (has_code : Bool) (ls : List Text)
    → All IsBlank ls
    → (read_lines label has_code ls).1 ≡ has_code
unfolding read_lines
read_lines-IsBlank label has_code [] h = refl
read_lines-IsBlank label has_code (l ∷ ls) h =
    read_lines-IsBlank (next_label label has_code (trim_space l))
      (next_code has_code (trim_space l)) ls h.1
    ∙ next_code-nil has_code (trim_space l) (trim_space-IsBlank l h.0)

-- A piece with a line of code is not trimmed to nothing.
read_lines-trim_space :
    (piece : Text) → (read_lines [] false (lines piece)).1 ≡ true → trim_space piece ≢ []
read_lines-trim_space piece h e = cc (
  h,
  read_lines-IsBlank [] false (lines piece) (lines-IsBlank piece (IsBlank-trim_space piece e)),
)

-- `appendStatement` returns its argument, or adds one statement, which is not empty.
pub append_statement_adds :
    (out : List Statement) (piece : Text) {r : List Statement}
    → append_statement out piece ≡ some r
    → (r ≡ out) ⊎ ((st : Statement) × (r ≡ out ++ st ∷ []) × (st.sql ≢ []))
unfolding append_statement
append_statement_adds out piece h = elim (Option-cases (strip_comments piece)) [
  | inl e ↦ ground arith
  | inr (code, e) ↦ elim (Bool-cases (read_lines [] false (lines piece)).1) [
    | inl has ↦ elim (Bool-cases (is_empty (trim_space code))) [
      | inl blank ↦ inl (ground arith)
      | inr more ↦ inr (
        record { sql = trim_space piece; label = (read_lines [] false (lines piece)).0 },
        ground arith,
        read_lines-trim_space piece has,
      )
    ]
    | inr no_code ↦ inl (ground arith)
  ]
]

abbrev pub HasText : Statement → Type 0
HasText st = st.sql ≢ []

append_all-HasText :
    (out : List Statement) (ps : List Text) {r : List Statement}
    → All HasText out
    → append_all out ps ≡ some r
    → All HasText r
append_all-HasText out [] {r} h e = let same : out ≡ r = cc in subst (All HasText) same h
append_all-HasText out (p ∷ ps) h e = elim (Option-cases (append_statement out p)) [
  | inl n ↦ absurd (ground arith)
  | inr (out', a) ↦ append_all-HasText out' ps (keep out' a) (rw (a, append_all) at e)
]
  where
    keep : (out' : List Statement) → append_statement out p ≡ some out' → All HasText out'
    keep out' a = elim (append_statement_adds out p a) [
      | inl same ↦ rw same h
      | inr (st, added, text) ↦ rw added (All-append HasText out (st ∷ []) h (text, tt))
    ]

-- `Split` returns no empty statement: each has text that is left when it is trimmed.
pub split-HasText : (script : Text) {r : List Statement} → split script ≡ some r → All HasText r
split-HasText script e =
    let (r', e', (p, ps, _, a)) = split_covers script in
    append_all-HasText [] (p ∷ ps) tt (a ∙ sym e' ∙ e)
