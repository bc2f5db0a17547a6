-- ===== src/Sqlsplit/Width.antt =====
-- The skips of internal/sqlsplit/sqlsplit.go move forward, and never past the end of the script.
use duckstore.Prelude.{
  ℕ, suc, ◌+◌, ◌≤◌, ◌≡◌, Bool, true, false, [], ◌∷◌, some, arith, length, take, drop, length-drop,
  length-take, Option-cases, inl, inr, ◌⊎◌,
}
use duckstore.Prelude.Text.{Text, codes, has_prefix, index}
use duckstore.Sqlsplit.{
  quoted_tail, skip_quoted, skip_line, skip_block, tag_length, skip_dollar_quoted, dollar_from,
  close_dollar, starts_dollar, advance, move, copy, omit, strip_move,
}

has_prefix-le : (s p : Text) → has_prefix s p ≡ true → length p ≤ length s
unfolding has_prefix
has_prefix-le s [] h = omega arith
has_prefix-le [] (x ∷ p) h = cc
has_prefix-le (c ∷ s) (x ∷ p) h = ground (arith, has_prefix-le s p)

-- A text that is found lies inside the text that is searched.
pub index-le : (s sub : Text) {n : ℕ} → index s sub ≡ some n → n + length sub ≤ length s
unfolding index
index-le [] sub h = ground (arith, has_prefix-le [] sub)
index-le (c ∷ s) sub h = elim (Option-cases (index s sub)) [
  | inl e ↦ ground (arith, has_prefix-le (c ∷ s) sub)
  | inr (m, e) ↦ ground (arith, has_prefix-le (c ∷ s) sub, index-le s sub e)
]

has_prefix_head : (c : ℕ) (s : Text) (d : ℕ) (p : Text) → has_prefix (c ∷ s) (d ∷ p) ≡ true → c ≡ d
unfolding has_prefix
has_prefix_head c s d p h = ground arith

quoted_tail-le : (quote : ℕ) (s : Text) → quoted_tail quote s ≤ length s
unfolding quoted_tail
quoted_tail-le quote [] = omega arith
quoted_tail-le quote (c ∷ []) = omega arith
quoted_tail-le quote (c ∷ d ∷ s) =
    ground (arith, quoted_tail-le quote s, quoted_tail-le quote (d ∷ s))

skip_quoted-le : (quote c : ℕ) (s : Text) → skip_quoted quote (c ∷ s) ≤ suc (length s)
unfolding skip_quoted
skip_quoted-le quote c s = omega (arith, quoted_tail-le quote s)

skip_quoted-pos : (quote c : ℕ) (s : Text) → 1 ≤ skip_quoted quote (c ∷ s)
unfolding skip_quoted
skip_quoted-pos quote c s = omega arith

skip_line-le : (s : Text) → skip_line s ≤ length s
unfolding skip_line
skip_line-le [] = omega arith
skip_line-le (c ∷ s) = ground (arith, skip_line-le s)

skip_line-pos : (c : ℕ) (s : Text) → c ≡ b'-' → 1 ≤ skip_line (c ∷ s)
unfolding skip_line
skip_line-pos c s h = ground arith

tag_length-le : (first : Bool) (s : Text) → tag_length first s ≤ length s
unfolding tag_length
tag_length-le first [] = omega arith
tag_length-le first (c ∷ s) = ground (arith, tag_length-le false s)

module _ (c d : ℕ) (s : Text) where
  skip_block_bounds : (1 ≤ skip_block (c ∷ d ∷ s)) × (skip_block (c ∷ d ∷ s) ≤ length (c ∷ d ∷ s))
  unfolding skip_block
  skip_block_bounds = elim (Option-cases (index s (codes "*/"))) [
    | inl e ↦ ground arith
    | inr (n, e) ↦ ground (arith, index-le s (codes "*/") e)
  ]

starts_dollar-pos : (s : Text) → starts_dollar s ≡ true → 1 ≤ length s
starts_dollar-pos [] h = cc
starts_dollar-pos (c ∷ s) h = omega arith

module _ (c : ℕ) (s : Text) where
  skip_dollar_quoted_bounds :
      (1 ≤ skip_dollar_quoted (c ∷ s)) × (skip_dollar_quoted (c ∷ s) ≤ length (c ∷ s))
  unfolding skip_dollar_quoted dollar_from close_dollar
  skip_dollar_quoted_bounds =
      let j = 1 + tag_length true s in
      let tag = take (j + 1) (c ∷ s) in
      let after = drop (j + 1) (c ∷ s) in
      let room = length-drop j (c ∷ s) in
      let room' = length-drop (j + 1) (c ∷ s) in
      let size = length-take (j + 1) (c ∷ s) in
      elim (Option-cases (index after tag)) [
        | inl e ↦ ground (arith, tag_length-le true s)
        | inr (n, e) ↦
            ground (
              arith,
              index-le after tag e,
              starts_dollar-pos (drop j (c ∷ s)),
              tag_length-le true s,
            )
      ]

has_prefix_one : (s : Text) (d : ℕ) → has_prefix s (d ∷ []) ≡ true → (r : Text) × (s ≡ d ∷ r)
unfolding has_prefix
has_prefix_one [] d h = cc
has_prefix_one (c ∷ s) d h = (s, ground arith)

skip_block_after_slash :
    (s : Text) (d c : ℕ)
    → has_prefix s (d ∷ []) ≡ true
    → (1 ≤ skip_block (c ∷ s)) × (skip_block (c ∷ s) ≤ length (c ∷ s))
skip_block_after_slash s d c h = let (r, e) = has_prefix_one s d h in rw e (skip_block_bounds c d r)

-- Whatever stands at a position, the loop of `Split` moves on by at least one character and at
-- most to the end.
pub move_bounds : (c : ℕ) (s : Text) {k : ℕ} → move c s ≡ advance k → (1 ≤ k) × (k ≤ length (c ∷ s))
unfolding move
move_bounds c s h = ground (
  arith,
  skip_quoted-le c c s,
  skip_quoted-pos c c s,
  skip_line-le (c ∷ s),
  skip_line-pos c s,
  skip_block_after_slash s b'*' c,
  skip_dollar_quoted_bounds c s,
)

-- The same for the loop of `stripComments`, whether it copies or omits what it moves over.
pub strip_move_bounds :
    (c : ℕ) (s : Text) {k : ℕ}
    → (strip_move c s ≡ copy k) ⊎ (strip_move c s ≡ omit k)
    → (1 ≤ k) × (k ≤ length (c ∷ s))
unfolding strip_move
strip_move_bounds c s h = elim (Option-cases (index (drop 2 (c ∷ s)) (codes "*/"))) [
  | inl e ↦ ground (
    arith,
    skip_quoted-le c c s,
    skip_quoted-pos c c s,
    skip_line-le (c ∷ s),
    skip_line-pos c s,
    has_prefix_head c s b'-' (b'-' ∷ []),
  )
  | inr (n, e) ↦ ground (
    arith,
    skip_quoted-le c c s,
    skip_quoted-pos c c s,
    skip_line-le (c ∷ s),
    skip_line-pos c s,
    has_prefix_head c s b'-' (b'-' ∷ []),
    index-le (drop 2 (c ∷ s)) (codes "*/") e,
    length-drop 2 (c ∷ s),
    has_prefix-le (c ∷ s) (codes "/*"),
  )
]
