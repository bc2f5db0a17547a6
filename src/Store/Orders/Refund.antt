-- ===== src/Store/Orders/Refund.antt =====
-- internal/web/checkout.go: what the returns of all units of a line pay back.
use duckstore.Prelude.{ℕ, ◌+◌, ◌-◌, ◌*◌, ◌/◌, ◌%◌, ◌≤◌, ◌<◌, ◌≡◌, ap, arith}
use native.Mathlib.Nat.{mul-add}
use native.Mathlib.Omega.{div_any}
use duckstore.Prelude.Int.{pos, ◌-ℤ◌, div_ℕ, int64, int64-IsInt64, two_63}
use duckstore.Store.Orders.{refund_of}
use duckstore.Store.Tables.{OrderItem}

unit_refund :
    (u d q : ℕ) → d / q ≤ u → u < two_63 → int64 (pos u -ℤ div_ℕ (pos d) q) ≡ pos (u - d / q)
unfolding ◌-ℤ◌
unit_refund u d q h k =
    let direct : pos u -ℤ pos (d / q) ≡ pos (u - d / q) = ground arith in
    rw direct (int64-IsInt64 (pos (u - d / q)) (omega arith))

excess : (u d q : ℕ) → d / q ≤ u → q * (u - d / q) + d ≡ q * u + d % q
excess u d q h =
    let whole : u - d / q + d / q ≡ u = omega arith in
    let split = mul-add q (u - d / q) (d / q) in omega (arith, div_any d q, ap (λ x. q * x) whole)

-- A return of every unit of a line pays back what was paid for the line, the price less the
-- discount, and the cents that the division of the discount by the quantity leaves over.
pub refund_of_units :
    (i : OrderItem) (u d : ℕ)
    → i.unit_price ≡ pos u
    → i.discount ≡ pos d
    → d / i.quantity ≤ u
    → u < two_63
    → (r : ℕ) × (refund_of i ≡ pos r) × (i.quantity * r + d ≡ i.quantity * u + d % i.quantity)
unfolding refund_of
refund_of_units i u d hu hd h k =
    (u - d / i.quantity, rw (hu, hd) (unit_refund u d i.quantity h k), excess u d i.quantity h)
