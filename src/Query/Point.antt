-- ===== src/Query/Point.antt =====
-- internal/query/query.go: the text of a decimal number has its value and its scale.
use duckstore.Prelude.{
  ℕ, zero, suc, ◌+◌, ◌-◌, ◌≤◌, ◌≡◌, refl, sym, ◌∙◌, subst, ap, true, some, [], ◌∷◌, ◌++◌, arith,
  length, take, drop, replicate, length-drop, length-take, length-append, take-append-drop,
  Bool-cases, inl, inr, ltb, leb, leb→le,
}
use duckstore.Prelude.Int.{ℤ, pos, negsuc}
use duckstore.Prelude.Text.Decimal.{
  decimal, decimal_onto, digits_value, are_digits, digits_value-decimal, are_digits-decimal,
}
use duckstore.Prelude.Text.{Text}
use duckstore.Query.{scaled, with_point, decimal_string}

length-replicate : (n a : ℕ) → length (replicate n a) ≡ n
length-replicate zero a = refl
length-replicate (suc n) a = ap suc (length-replicate n a)

digits_value-zeros : (n : ℕ) (s : Text) → digits_value 0 (replicate n b'0' ++ s) ≡ digits_value 0 s
digits_value-zeros zero s = refl
digits_value-zeros (suc n) s = digits_value-zeros n s

are_digits-zeros : (n : ℕ) (s : Text) → are_digits (replicate n b'0' ++ s) ≡ are_digits s
are_digits-zeros zero s = refl
are_digits-zeros (suc n) s = are_digits-zeros n s

-- Digits, and nothing else, that have the value.
abbrev pub AreDigitsOf : ℕ → Text → Type 0
AreDigitsOf n s = (are_digits s ≡ true) × (digits_value 0 s ≡ n)

-- A text with a point: digits before it, `scale` digits behind it, and all of them have the value.
abbrev pub IsPointed : ℕ → ℕ → Text → Type 0
IsPointed scale n s =
    (whole : Text) × (frac : Text) × (s ≡ whole ++ b'.' ∷ frac)
    × (length frac ≡ scale)
    × (1 ≤ length whole)
    × AreDigitsOf n (whole ++ frac)

-- For the scale 0 there is no point.
abbrev pub IsScaled : ℕ → ℕ → Text → Type 0
IsScaled zero n s = (1 ≤ length s) × AreDigitsOf n s
IsScaled (suc k) n s = IsPointed (suc k) n s

-- A minus sign stands before the digits of a number below 0, and only there.
abbrev pub IsNumeral : ℕ → ℤ → Text → Type 0
IsNumeral scale (pos n) s = IsScaled scale n s
IsNumeral scale (negsuc n) s = (t : Text) × (s ≡ b'-' ∷ t) × IsScaled scale (suc n) t

cut_point :
    (scale n : ℕ) (padded : Text)
    → suc scale ≤ length padded
    → AreDigitsOf n padded
    → IsPointed scale n
        (take (length padded - scale) padded ++ b'.' ∷ drop (length padded - scale) padded)
cut_point scale n padded h v =
    let k = length padded - scale in
    (
      take k padded,
      drop k padded,
      refl,
      omega (arith, length-drop k padded),
      omega (arith, length-take k padded),
      subst (AreDigitsOf n) (sym (take-append-drop k padded)) v,
    )

abbrev zeros_of : ℕ → Text
zeros_of k = replicate k b'0'

with_point-IsPointed :
    (scale n : ℕ) (s : Text) → AreDigitsOf n s → IsPointed scale n (with_point scale s)
unfolding with_point
with_point-IsPointed scale n s v = elim (Bool-cases (leb (length s) scale)) [
  | inl e ↦
      let k = scale - length s + 1 in
      let size = length-append (replicate k b'0') s in
      let zeros = length-replicate k b'0' in
      rw e (
        cut_point scale n (replicate k b'0' ++ s) (padded_le e size zeros)
          (are_digits-zeros k s ∙ v.0, digits_value-zeros k s ∙ v.1))
  | inr e ↦ rw e (cut_point scale n s (ground arith) v)
]
  where
    padded_le :
        leb (length s) scale ≡ true
        → length (zeros_of (scale - length s + 1) ++ s)
          ≡ length (zeros_of (scale - length s + 1)) + length s
        → length (zeros_of (scale - length s + 1)) ≡ scale - length s + 1
        → suc scale ≤ length (zeros_of (scale - length s + 1) ++ s)
    padded_le e size zeros = let short = leb→le (length s) scale e in omega arith

not_empty : (n : ℕ) (s : Text) → digits_value 0 s ≡ suc n → 1 ≤ length s
not_empty n [] e = absurd (omega arith)
not_empty n (c ∷ s) e = omega arith

length-decimal : (n : ℕ) → 1 ≤ length (decimal n)
unfolding decimal decimal_onto
length-decimal zero = omega arith
length-decimal (suc n) = not_empty n (decimal (suc n)) (digits_value-decimal (suc n))

scaled-IsScaled : (scale n : ℕ) → IsScaled scale n (scaled scale (decimal n))
scaled-IsScaled zero n = (length-decimal n, (are_digits-decimal n, digits_value-decimal n))
scaled-IsScaled (suc k) n =
    let e : ltb 0 (suc k) ≡ true = ground arith in
    rw e (with_point-IsPointed (suc k) n (decimal n) (are_digits-decimal n, digits_value-decimal n))

-- `decimalString` of a number is its digits, behind a minus sign when the number is below 0. For the
-- scale 0 there is no point, and for one above 0 a point with at least one digit before it and exactly
-- `scale` digits behind it.
pub decimal_string-IsNumeral :
    (i : ℤ) (scale : ℕ) → IsNumeral scale i (decimal_string (some i) scale)
unfolding decimal_string
decimal_string-IsNumeral (pos n) scale = scaled-IsScaled scale n
decimal_string-IsNumeral (negsuc n) scale = (_, refl, scaled-IsScaled scale (suc n))
