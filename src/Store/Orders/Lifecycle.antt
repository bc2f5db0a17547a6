-- ===== src/Store/Orders/Lifecycle.antt =====
-- internal/web/checkout.go: the states that `orderAction` moves an order through.
use duckstore.Prelude.{
  ℕ, ◌≡◌, ◌≢◌, inl, inr, refl, sym, ap, ◌∙◌, true, List, [], ◌∷◌, map, some, ==_iff, Bool-cases,
}
use duckstore.Prelude.Int.{ℤ, pos, negsuc}
use duckstore.Store.Carts.{is_id}
use duckstore.Store.Orders.{status_of, set_row}
use duckstore.Store.Orders.Steps.{Step, ships, delivers, cancels, returns}
use duckstore.Store.Tables.{Order, OrderStatus, Db}

-- The moves of the diagram: paid, shipped, delivered; or cancelled, before it ships.
pub data Moves : OrderStatus → OrderStatus → Type 0 where
  ship : Moves OrderStatus.paid OrderStatus.shipped
  deliver : Moves OrderStatus.shipped OrderStatus.delivered
  cancel_pending : Moves OrderStatus.pending OrderStatus.cancelled
  cancel_paid : Moves OrderStatus.paid OrderStatus.cancelled
  give_back : Moves OrderStatus.delivered OrderStatus.delivered

pub is_id-eq : (id : ℤ) (n : ℕ) → is_id id n ≡ true → id ≡ pos n
is_id-eq (pos m) n h = ap pos ((==_iff m n).0 h)
is_id-eq (negsuc m) n h = absurd cc

status_of-set_row :
    (id : ℤ) (now : ℕ) (to : OrderStatus) {from : OrderStatus} (os : List Order)
    → status_of id os ≡ some from
    → status_of id (map (set_row id now to) os) ≡ some to
unfolding status_of
status_of-set_row id now to [] h = absurd cc
status_of-set_row id now to (o ∷ os) h = elim (Bool-cases (is_id id o.id)) [
  | inl e ↦ rw (e, e, status_of)
  | inr e ↦ rw (e, e, status_of) (status_of-set_row id now to os (rw (e, status_of) at h))
]

status_of-set_row_ne :
    (id other : ℤ) (now : ℕ) (to : OrderStatus) (os : List Order)
    → other ≢ id
    → status_of other (map (set_row id now to) os) ≡ status_of other os
unfolding status_of
status_of-set_row_ne id other now to [] ne = refl
status_of-set_row_ne id other now to (o ∷ os) ne =
    let others = status_of-set_row_ne id other now to os ne in
    elim (Bool-cases (is_id id o.id)) [
      | inl e ↦ elim (Bool-cases (is_id other o.id)) [
        | inl e' ↦ absurd (ne (is_id-eq other o.id e' ∙ sym (is_id-eq id o.id e)))
        | inr e' ↦ rw (e, e', status_of) others
      ]
      | inr e ↦ rw (e, status_of, others)
    ]

-- The states before and after a step of one order, and of the others.
abbrev pub Moved : ℤ → Db → Db → Type 0
Moved id d d' =
    ((s : OrderStatus) × (s' : OrderStatus) × (status_of id d.orders ≡ some s)
      × (status_of id d'.orders ≡ some s')
      × Moves s s')
    × ((other : ℤ) → other ≢ id → status_of other d'.orders ≡ status_of other d.orders)

-- A step of an order takes it along one move of the diagram, and no other order changes its state.
pub Step-Moved : (id : ℤ) (now : ℕ) (d d' : Db) → Step id now d d' → Moved id d d'
Step-Moved id now d d' (ships was) = (
  (_, _, was, status_of-set_row id now _ d.orders was, ship),
  λ other ne. status_of-set_row_ne id other now _ d.orders ne,
)
Step-Moved id now d d' (delivers was) = (
  (_, _, was, status_of-set_row id now _ d.orders was, deliver),
  λ other ne. status_of-set_row_ne id other now _ d.orders ne,
)
Step-Moved id now d d' (cancels (inl was) _) = (
  (_, _, was, status_of-set_row id now _ d.orders was, cancel_pending),
  λ other ne. status_of-set_row_ne id other now _ d.orders ne,
)
Step-Moved id now d d' (cancels (inr was) _) = (
  (_, _, was, status_of-set_row id now _ d.orders was, cancel_paid),
  λ other ne. status_of-set_row_ne id other now _ d.orders ne,
)
Step-Moved id now d d' (returns _ _ was _ _) = ((_, _, was, was, give_back), λ other ne. refl)
