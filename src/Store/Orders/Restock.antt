-- ===== src/Store/Orders/Restock.antt =====
-- internal/web/checkout.go: a cancelled order gives back the stock that its checkout took.
use duckstore.Prelude.{
  ℕ, suc, ◌≡◌, refl, ◌∙◌, Bool, true, false, ◌&&◌, List, [], ◌∷◌, ◌++◌, map, Option, none, some,
  arith, ◌==◌,
}
use duckstore.Prelude.Int.{pos}
use duckstore.Store.Checkout.Allocate.{Taken, taken_from, take_by, covers_by, take_rows, covers}
use duckstore.Store.Checkout.Money.{Priced}
use duckstore.Store.Checkout.Writes.{order_rows}
use duckstore.Store.Orders.{item_from, restock_row, restock_rows}
use duckstore.Store.Tables.{OrderItem, Stock}

abbrev pub taken_of : List Priced → List Taken
taken_of = map (λ (p : Priced). p.taken)

-- The rows are of other orders.
abbrev pub OfOthers : ℕ → List OrderItem → Type 0
OfOthers order [] = Unit {0}
OfOthers order (i ∷ is) = ((order == i.order) ≡ false) × OfOthers order is

item_from-OfOthers :
    (order warehouse product : ℕ) (before rows : List OrderItem)
    → OfOthers order before
    → item_from (pos order) warehouse product (before ++ rows)
      ≡ item_from (pos order) warehouse product rows
unfolding item_from
item_from-OfOthers order warehouse product [] rows h = refl
item_from-OfOthers order warehouse product (i ∷ is) rows h =
    rw (h.0, item_from) (item_from-OfOthers order warehouse product is rows h.1)

self_eq : (n : ℕ) → (n == n) ≡ true
self_eq n = ground arith

-- The rows that a checkout writes hold what it took from each stock row.
item_from-order_rows :
    (order warehouse product n : ℕ) (ps : List Priced)
    → item_from (pos order) warehouse product (order_rows order n ps)
      ≡ taken_from warehouse product (taken_of ps)
unfolding item_from order_rows taken_from
item_from-order_rows order warehouse product n [] = refl
item_from-order_rows order warehouse product n (p ∷ ps) =
    let others = item_from-order_rows order warehouse product (suc n) ps in
    rw (self_eq order) (ground arith)

and_true : (a b : Bool) → (a && b) ≡ true → (a ≡ true) × (b ≡ true)
and_true a b h = ground arith

cons-eq : {a b : ℕ} {xs ys : List ℕ} → a ≡ b → xs ≡ ys → a ∷ xs ≡ b ∷ ys
cons-eq p q = λ i. p i ∷ q i

abbrev pub on_hands : List Stock → List ℕ
on_hands = map (λ (s : Stock). s.on_hand)

item_from-append :
    (order warehouse product : ℕ) (rows after : List OrderItem)
    → OfOthers order after
    → item_from (pos order) warehouse product (rows ++ after)
      ≡ item_from (pos order) warehouse product rows
unfolding item_from
item_from-append order warehouse product [] [] h = refl
item_from-append order warehouse product [] (i ∷ is) h =
    rw (h.0, item_from) (item_from-append order warehouse product [] is h.1)
item_from-append order warehouse product (r ∷ rows) after h =
    let others = item_from-append order warehouse product rows after h in ground arith

module _ (order now now' : ℕ) (items : List OrderItem) where
  restock_by-take_by :
      (o : Option ℕ) (s : Stock)
      → item_from (pos order) s.warehouse s.product items ≡ o
      → covers_by o s ≡ true
      → (let s' : Stock = take_by now o s in restock_row (pos order) now' items s').on_hand
        ≡ s.on_hand
  restock_by-take_by none s e h = rw e
  restock_by-take_by (some q) s e h = rw e (ground arith)

  restock_rows-take_rows :
      (ts : List Taken) (rows : List Stock)
      → ((warehouse product : ℕ)
          → item_from (pos order) warehouse product items ≡ taken_from warehouse product ts)
      → covers ts rows ≡ true
      → on_hands (restock_rows (pos order) now' items (take_rows now ts rows)) ≡ on_hands rows
  unfolding restock_rows take_rows covers
  restock_rows-take_rows ts [] e h = refl
  restock_rows-take_rows ts (s ∷ rows) e h =
      let (here, there) = and_true _ _ h in
      cons-eq (restock_by-take_by _ s (e s.warehouse s.product) here)
        (restock_rows-take_rows ts rows e there)

-- A checkout took the stock of its lines, its rows stand among those of other orders, and no other
-- statement wrote the stock. Then a cancel of the order puts every stock row back to the quantity
-- of before the checkout.
pub cancel_restores :
    (order now now' : ℕ) (before after : List OrderItem) (ps : List Priced) (rows : List Stock)
    → OfOthers order before
    → OfOthers order after
    → covers (taken_of ps) rows ≡ true
    → on_hands (
        restock_rows
          (pos order)
          now'
          (before ++ (order_rows order 0 ps ++ after))
          (take_rows now (taken_of ps) rows))
      ≡ on_hands rows
cancel_restores order now now' before after ps rows hb ha h =
    restock_rows-take_rows order now now' _ (taken_of ps) rows
      (λ warehouse product.
        item_from-OfOthers order warehouse product before _ hb
        ∙ item_from-append order warehouse product _ after ha
        ∙ item_from-order_rows order warehouse product 0 ps)
      h
