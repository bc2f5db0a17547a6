-- ===== src/Store/Orders/Returned.antt =====
-- internal/web/checkout.go: `orderAction` registers no more returns of a line than were bought.
use duckstore.Prelude.{
  ℕ, ◌+◌, ◌<◌, ◌≤◌, ◌≡◌, inl, inr, sym, subst, ap, ◌∙◌, true, ◌&&◌, List, [], ◌∷◌, ◌++◌, some,
  some_inj, arith, Bool-cases, ◌==◌, if◌then◌else◌,
}
use duckstore.Prelude.Int.{ℤ, pos}
use duckstore.Prelude.Text.{Text}
use duckstore.Store.Carts.{is_id}
use duckstore.Store.Orders.{find_item, returned}
use duckstore.Store.Orders.Lifecycle.{is_id-eq}
use duckstore.Store.Orders.Steps.{Step, ships, delivers, cancels, returns, return_row}
use duckstore.Store.Tables.{OrderItem, Return, Db}

-- Of every line that a return can be about, no more units came back than were bought.
abbrev pub ReturnsFit : Db → Type 0
ReturnsFit d =
    (id line : ℤ) (i : OrderItem)
    → find_item id line d.order_items ≡ some i
    → returned i.order i.line_no d.returns ≤ i.quantity

find_item-is_item :
    (id line : ℤ) (is : List OrderItem) (i : OrderItem)
    → find_item id line is ≡ some i
    → (id ≡ pos i.order) × (line ≡ pos i.line_no)
unfolding find_item
find_item-is_item id line [] i h = absurd cc
find_item-is_item id line (j ∷ is) i h = elim (Bool-cases (is_id id j.order)) [
  | inl e ↦ elim (Bool-cases (is_id line j.line_no)) [
    | inl e' ↦
        let same = some_inj (rw (e, e', find_item) at h) in
        (
          is_id-eq id j.order e ∙ ap (λ (k : OrderItem). pos k.order) same,
          is_id-eq line j.line_no e' ∙ ap (λ (k : OrderItem). pos k.line_no) same,
        )
    | inr e' ↦ find_item-is_item id line is i (rw (e, e', find_item) at h)
  ]
  | inr e ↦ find_item-is_item id line is i (rw (e, find_item) at h)
]

returned-append :
    (order line : ℕ) (rs : List Return) (r : Return)
    → returned order line (rs ++ r ∷ [])
      ≡ returned order line rs + (if r.order == order && r.line_no == line then r.quantity else 0)
unfolding returned
returned-append order line [] r = omega arith
returned-append order line (s ∷ rs) r = omega (arith, returned-append order line rs r)

both : (a b c d : ℕ) → (a == b && c == d) ≡ true → (a ≡ b) × (c ≡ d)
both a b c d h = ground arith

-- The return of one unit of `i` counts for `i` and for no line found under another key.
returned-return_row :
    (d : Db) (id line id' line' : ℤ) (i j : OrderItem) (reason : Text) (now : ℕ)
    → find_item id line d.order_items ≡ some i
    → returned i.order i.line_no d.returns < i.quantity
    → find_item id' line' d.order_items ≡ some j
    → returned j.order j.line_no d.returns ≤ j.quantity
    → returned j.order j.line_no (d.returns ++ return_row i reason now ∷ []) ≤ j.quantity
returned-return_row d id line id' line' i j reason now found left found' fit =
    let added = returned-append j.order j.line_no d.returns (return_row i reason now) in
    elim (Bool-cases (i.order == j.order && i.line_no == j.line_no)) [
      | inl e ↦
          let (o, l) = both i.order j.order i.line_no j.line_no e in
          let (p, q) = find_item-is_item id line d.order_items i found in
          let (p', q') = find_item-is_item id' line' d.order_items j found' in
          let same : i ≡ j = some_inj (
            sym found
            ∙ ap (λ (x : ℤ). find_item x line d.order_items) (p ∙ ap pos o ∙ sym p')
            ∙ ap (λ (x : ℤ). find_item id' x d.order_items) (q ∙ ap pos l ∙ sym q')
            ∙ found') in
          let left' =
            subst (λ (k : OrderItem). returned k.order k.line_no d.returns < k.quantity) same
              left in
          let added' = rw e at added in omega arith
      | inr e ↦ let added' = rw e at added in omega arith
    ]

-- A step keeps it.
pub Step-ReturnsFit :
    (id : ℤ) (now : ℕ) (d d' : Db) → Step id now d d' → ReturnsFit d → ReturnsFit d'
Step-ReturnsFit id now d d' (ships _) fit = fit
Step-ReturnsFit id now d d' (delivers _) fit = fit
Step-ReturnsFit id now d d' (cancels _ _) fit = fit
Step-ReturnsFit id now d d' (returns line {i} reason _ found left) fit = λ id' line' j found'.
    returned-return_row d id line id' line' i j reason now found left found'
      (fit id' line' j found')
