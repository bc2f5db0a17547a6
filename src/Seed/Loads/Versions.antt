-- ===== src/Seed/Loads/Versions.antt =====
-- internal/seed/seed.go: the versions of a price, and the addresses of the customers.
use duckstore.Prelude.{
  ℕ, zero, suc, ◌+◌, ◌≡◌, refl, sym, ap, List, [], ◌∷◌, ◌++◌, subst, Option, none, some, arith,
  length, get_elem?,
}
use duckstore.Seed.Loads.{
  PriceRow, price_row_of, current_cents, from_of, amount_of, copy_iter, Living, AddressRow,
  address_row,
}
use duckstore.Seed.Loads.Nested.{group_rows, all_rows, copy_iter-all_rows}
use duckstore.Seed.Prices.{PricePoint}

-- Each version ends where the next begins; the last is open, at this price.
abbrev pub IsHistory : Option ℕ → List PriceRow → Type 0
IsHistory current [] = Unit {0}
IsHistory current (r ∷ []) = (r.valid_to ≡ none) × (r.cents ≡ current)
IsHistory current (r ∷ s ∷ rs) = (r.valid_to ≡ s.valid_from) × IsHistory current (s ∷ rs)

past_end : {A : Type 0} (xs : List A) (i : ℕ) → i ≡ length xs → get_elem? xs i ≡ none
past_end [] i e = refl
past_end (x ∷ xs) zero e = absurd (omega arith)
past_end (x ∷ xs) (suc i) e = past_end xs i (omega arith)

group_rows-IsHistory :
    (pi : ℕ) (prices : List PricePoint) (k i : ℕ)
    → i + k ≡ length prices
    → IsHistory (current_cents prices) (group_rows length price_row_of pi prices k i)
group_rows-IsHistory pi prices zero i e = tt
group_rows-IsHistory pi prices (suc zero) i e =
    (ap from_of (past_end prices (i + 1) e), ap (λ n. amount_of (get_elem? prices n)) (omega arith))
group_rows-IsHistory pi prices (suc (suc k)) i e =
    (refl, group_rows-IsHistory pi prices (suc k) (i + 1) (omega arith))

abbrev pub AreHistories : ℕ → List (List PricePoint) → Type 0
AreHistories pi [] = Unit {0}
AreHistories pi (prices ∷ products) =
    IsHistory (current_cents prices) (group_rows length price_row_of pi prices (length prices) 0)
    × AreHistories (pi + 1) products

all_histories : (pi : ℕ) (products : List (List PricePoint)) → AreHistories pi products
all_histories pi [] = tt
all_histories pi (prices ∷ products) = (
  group_rows-IsHistory pi prices (length prices) 0 (omega arith),
  all_histories (pi + 1) products,
)

-- COPY into product_prices gets the versions of each product in turn, all of them and each once; of
-- each product every version ends where the next begins, and the last one is open, with the price
-- that the row of products gets.
pub price_rows-AreHistories :
    (products : List (List PricePoint))
    → (let rows = all_rows length price_row_of 0 products in
        (copy_iter length price_row_of
            (suc (length rows))
            (record { group = 0; left = products; item = 0 })
          ≡ some rows)
        × AreHistories 0 products)
price_rows-AreHistories products =
    (copy_iter-all_rows length price_row_of products, all_histories 0 products)

-- The ids of the rows count from `n` on.
abbrev pub IsNumbered : ℕ → List AddressRow → Type 0
IsNumbered n [] = Unit {0}
IsNumbered n (r ∷ rs) = (r.id ≡ n) × IsNumbered (n + 1) rs

-- Each customer's addresses come right behind those of the customer before.
abbrev pub IsConsecutive : ℕ → List Living → Type 0
IsConsecutive n [] = Unit {0}
IsConsecutive n (c ∷ cs) = (c.addr_id ≡ n) × IsConsecutive (n + c.addr_count) cs

IsNumbered-append :
    (n : ℕ) (rs ss : List AddressRow)
    → IsNumbered n rs
    → IsNumbered (n + length rs) ss
    → IsNumbered n (rs ++ ss)
IsNumbered-append n [] ss h k = subst (λ i. IsNumbered i ss) (omega arith) k
IsNumbered-append n (r ∷ rs) ss h k =
    (h.0, IsNumbered-append (n + 1) rs ss h.1 (subst (λ i. IsNumbered i ss) (omega arith) k))

abbrev addresses_of : ℕ → Living → ℕ → ℕ → List AddressRow
addresses_of ci c k i = group_rows (λ (c : Living). c.addr_count) address_row ci c k i

addresses_of-IsNumbered :
    (ci : ℕ) (c : Living) (k i : ℕ) → IsNumbered (c.addr_id + i) (addresses_of ci c k i)
addresses_of-IsNumbered ci c zero i = tt
addresses_of-IsNumbered ci c (suc k) i = (
  refl,
  subst (λ n. IsNumbered n (addresses_of ci c k (i + 1))) (omega arith)
      (addresses_of-IsNumbered ci c k (i + 1)),
)

length-addresses_of : (ci : ℕ) (c : Living) (k i : ℕ) → length (addresses_of ci c k i) ≡ k
length-addresses_of ci c zero i = refl
length-addresses_of ci c (suc k) i = ap suc (length-addresses_of ci c k (i + 1))

-- Where the customers' addresses follow each other, the ids of the rows count from the first on, so
-- that no two are the same.
pub address_rows-IsNumbered :
    (n ci : ℕ) (cs : List Living)
    → IsConsecutive n cs
    → IsNumbered n (all_rows (λ (c : Living). c.addr_count) address_row ci cs)
address_rows-IsNumbered n ci [] h = tt
address_rows-IsNumbered n ci (c ∷ cs) h =
    IsNumbered-append n (addresses_of ci c c.addr_count 0) _
      (subst (λ i. IsNumbered i (addresses_of ci c c.addr_count 0)) (omega (arith, h.0))
        (addresses_of-IsNumbered ci c c.addr_count 0))
      (subst
        (λ i. IsNumbered (n + i) (all_rows (λ (c : Living). c.addr_count) address_row (ci + 1) cs))
        (sym (length-addresses_of ci c c.addr_count 0))
        (address_rows-IsNumbered (n + c.addr_count) (ci + 1) cs h.1))
