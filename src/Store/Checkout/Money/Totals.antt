-- ===== src/Store/Checkout/Money/Totals.antt =====
-- internal/web/checkout.go: the sums of `placeOrder`, when they fit in an int64.
use duckstore.Prelude.{ℕ, ◌+◌, ◌*◌, ◌<◌, ◌≡◌, ap, ◌∙◌, List, [], ◌∷◌, arith, All}
use duckstore.Prelude.Int.{ℤ, pos, pos_part, ◌+ℤ◌, ◌*ℤ◌, int64, int64-IsInt64, two_63}
use duckstore.Store.Float.{Float}
use duckstore.Store.Checkout.Money.{Customer, Priced, subtotal_from, discount_from, amounts}

-- The amounts of a line are not below 0.
abbrev pub IsPriced : Priced → Type 0
IsPriced p = (p.unit ≡ pos (pos_part p.unit)) × (p.disc ≡ pos (pos_part p.disc))

-- The sums in numbers without a bound.
abbrev pub goods : List Priced → ℕ
goods [] = 0
goods (p ∷ ps) = pos_part p.unit * p.taken.line.qty + goods ps

abbrev pub rebates : List Priced → ℕ
rebates [] = 0
rebates (p ∷ ps) = pos_part p.disc + rebates ps

mul_pos : (a b : ℕ) → pos a *ℤ pos b ≡ pos (a * b)
unfolding ◌*ℤ◌
mul_pos a b = ground arith

add_pos : (a b : ℕ) → pos a +ℤ pos b ≡ pos (a + b)
unfolding ◌+ℤ◌
add_pos a b = ground arith

fits : (n : ℕ) → n < two_63 → int64 (pos n) ≡ pos n
fits n h = int64-IsInt64 (pos n) h

subtotal_from-goods :
    (acc : ℕ) (ps : List Priced)
    → All IsPriced ps
    → acc + goods ps < two_63
    → subtotal_from (pos acc) ps ≡ pos (acc + goods ps)
unfolding subtotal_from
subtotal_from-goods acc [] h k = ap pos (omega arith)
subtotal_from-goods acc (p ∷ ps) h k =
    let line = pos_part p.unit * p.taken.line.qty in
    let step : int64 (pos acc +ℤ int64 (p.unit *ℤ pos p.taken.line.qty)) ≡ pos (acc + line) =
      rw
        (
          h.0.0,
          mul_pos (pos_part p.unit) p.taken.line.qty,
          fits line (omega arith),
          add_pos acc line,
        )
        (fits (acc + line) (omega arith)) in
    ap (λ (x : ℤ). subtotal_from x ps) step
    ∙ subtotal_from-goods (acc + line) ps h.1 (omega arith)
    ∙ ap pos (omega arith)

discount_from-rebates :
    (acc : ℕ) (ps : List Priced)
    → All IsPriced ps
    → acc + rebates ps < two_63
    → discount_from (pos acc) ps ≡ pos (acc + rebates ps)
unfolding discount_from
discount_from-rebates acc [] h k = ap pos (omega arith)
discount_from-rebates acc (p ∷ ps) h k =
    let step : int64 (pos acc +ℤ p.disc) ≡ pos (acc + pos_part p.disc) =
      rw (h.0.1, add_pos acc (pos_part p.disc)) (fits (acc + pos_part p.disc) (omega arith)) in
    ap (λ (x : ℤ). discount_from x ps) step
    ∙ discount_from-rebates (acc + pos_part p.disc) ps h.1 (omega arith)
    ∙ ap pos (omega arith)

-- When the lines' amounts are not below 0 and the sums stay below 2^63, the subtotal and the
-- discount are the sums over the lines, and no addition wraps around.
pub amounts-sums :
    (fl : Float) (c : Customer (fl.F)) (ps : List Priced)
    → All IsPriced ps
    → goods ps < two_63
    → rebates ps < two_63
    → ((amounts fl c ps).subtotal ≡ pos (goods ps))
      × ((amounts fl c ps).discount ≡ pos (rebates ps))
unfolding amounts
amounts-sums fl c ps h k l = (
  subtotal_from-goods 0 ps h (omega arith) ∙ ap pos (omega arith),
  discount_from-rebates 0 ps h (omega arith) ∙ ap pos (omega arith),
)
