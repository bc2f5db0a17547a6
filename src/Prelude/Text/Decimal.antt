-- ===== src/Prelude/Text/Decimal.antt =====
-- The verb `%d` of Go's package fmt, and `strconv.ParseInt` to base 10.
use duckstore.Prelude.Int.{ℤ, pos, negsuc}
use duckstore.Prelude.Lists.{length, replicate}
use duckstore.Prelude.Tests.{Bool-cases, ltb, leb, ◌==◌, if◌then◌else◌}
use duckstore.Prelude.Text.{Text, within}
use Prim.Native.Nat.{ℕ, zero, suc, ◌+◌, ◌-◌, ◌*◌, ◌/◌, ◌%◌, ◌^◌, ◌<◌}
use mathlib.Core.Path.{◌≡◌, refl, ap, ◌∙◌}
use mathlib.Core.Logic.{inl, inr}
use mathlib.Core.Bool.{Bool, true, false, ◌&&◌}
use mathlib.Core.Option.{Option, none, some}
use mathlib.Core.List.{[], ◌∷◌, ◌++◌}
use native.Mathlib.Omega.{arith}

-- The digits of a number in front of `acc`, on fuel: a number has no more digits than its value.
unfoldable pub decimal_onto : ℕ → ℕ → Text → Text
decimal_onto zero n acc = acc
decimal_onto (suc fuel) n acc =
    let digits = (b'0' + n % 10) ∷ acc in
    let more = decimal_onto fuel (n / 10) digits in if ltb n 10 then digits else more

unfoldable pub decimal : ℕ → Text
unfolding decimal_onto
decimal n = decimal_onto (suc n) n []

-- `%d` of a signed number.
unfoldable pub decimal_ℤ : ℤ → Text
unfolding decimal
decimal_ℤ (pos n) = decimal n
decimal_ℤ (negsuc n) = b'-' ∷ decimal (suc n)

-- `%0wd`: zeros up to `w` places.
unfoldable pub pad_zeros : ℕ → Text → Text
pad_zeros w s = replicate (w - length s) b'0' ++ s

-- The value of a run of digits, behind the value of those before.
abbrev pub digits_value : ℕ → Text → ℕ
digits_value acc [] = acc
digits_value acc (c ∷ s) = digits_value (acc * 10 + (c - b'0')) s

abbrev pub are_digits : Text → Bool
are_digits [] = true
are_digits (c ∷ s) = within b'0' b'9' c && are_digits s

-- `strconv.ParseInt(s, 10, 64)`: the value and whether there is no error. What is out of range
-- gives the nearest number of the range, and what is no number gives 0; of a text that is both, the
-- first that is met counts.
pub record Parsed : Type 0 where
  pub value : ℤ
  pub valid : Bool

abbrev pub int64_limit : ℕ
int64_limit = 2 ^ 63

-- `strconv.ParseUint(s, 10, 64)` behind the value of the digits before: no number at a character
-- that is no digit, and the last number of 64 bits, from the digit on that leaves them.
abbrev pub scan_digits : ℕ → Text → Option ℕ
scan_digits n [] = some n
scan_digits n (c ∷ s) =
    let m = n * 10 + (c - b'0') in
    let more = scan_digits m s in
    let value = if ltb m (2 ^ 64) then more else some (2 ^ 64 - 1) in
    if within b'0' b'9' c then value else none

-- The value with its sign, within the range.
abbrev pub signed : Bool → ℕ → Parsed
signed false n =
    if ltb n int64_limit
    then record { value = pos n; valid = true }
    else record { value = pos (int64_limit - 1); valid = false }
signed true n =
    if leb n int64_limit
    then record { value = if n == 0 then pos 0 else negsuc (n - 1); valid = true }
    else record { value = negsuc (int64_limit - 1); valid = false }

abbrev pub no_number : Parsed
no_number = record { value = pos 0; valid = false }

parse_digits : Bool → Text → Parsed
parse_digits negative [] = no_number
parse_digits negative (c ∷ s) = elim (scan_digits 0 (c ∷ s)) [
  | none ↦ no_number
  | some n ↦ signed negative n
]

unfoldable pub parse_int : Text → Parsed
unfolding parse_digits
parse_int [] = no_number
parse_int (c ∷ s) =
    if c == b'-'
    then parse_digits true s
    else if c == b'+'
    then parse_digits false s
    else parse_digits false (c ∷ s)

digits_value-decimal_onto :
    (fuel n : ℕ) (acc : Text)
    → n < fuel
    → digits_value 0 (decimal_onto fuel n acc) ≡ digits_value n acc
unfolding decimal_onto
digits_value-decimal_onto zero n acc h = absurd (omega arith)
digits_value-decimal_onto (suc fuel) n acc h = elim (Bool-cases (ltb n 10)) [
  | inl e ↦ rw e (ap (λ k. digits_value k acc) (ground arith))
  | inr e ↦ rw e (
      digits_value-decimal_onto fuel (n / 10) ((b'0' + n % 10) ∷ acc) (ground arith)
      ∙ ap (λ k. digits_value k acc) (omega arith))
]

-- The digits of a number have its value.
pub digits_value-decimal : (n : ℕ) → digits_value 0 (decimal n) ≡ n
unfolding decimal
digits_value-decimal n = digits_value-decimal_onto (suc n) n [] (omega arith)

are_digits-decimal_onto :
    (fuel n : ℕ) (acc : Text) → are_digits (decimal_onto fuel n acc) ≡ are_digits acc
unfolding decimal_onto
are_digits-decimal_onto zero n acc = refl
are_digits-decimal_onto (suc fuel) n acc = elim (Bool-cases (ltb n 10)) [
  | inl e ↦ rw e (ground arith)
  | inr e ↦ rw e (are_digits-decimal_onto fuel (n / 10) ((b'0' + n % 10) ∷ acc) ∙ ground arith)
]

pub are_digits-decimal : (n : ℕ) → are_digits (decimal n) ≡ true
unfolding decimal
are_digits-decimal n = are_digits-decimal_onto (suc n) n []
