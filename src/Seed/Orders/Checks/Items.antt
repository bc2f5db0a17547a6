-- ===== src/Seed/Orders/Checks/Items.antt =====
-- internal/seed/orders.go: the next order and its items keep what the tables want.
use duckstore.Prelude.{
  ℕ, ◌-◌, ◌+◌, ◌≤◌, ◌<◌, ◌≡◌, refl, subst, sym, ap, ◌∙◌, Bool, false, ◌&&◌, List, [], ◌∷◌, map,
  arith, All, ◌==◌, if◌then◌else◌, inl, inr, ◌⊎◌,
}
use duckstore.Prelude.Int.{ℤ, pos, ◌+ℤ◌, ◌*ℤ◌, int64}
use duckstore.Seed.Orders.Lines.{Totals}
use duckstore.Seed.Orders.{Gen, ReturnRow, Out}
use duckstore.Seed.Orders.Checks.{
  IsFresh, spent, rebated, AddsUp, OlderAddUp, AllAddUp, IsOrder, IsDue, IsProduct, IsWarehouse,
  OrderFits, ItemFits, ShipmentFits, bought, ReturnFits, Sound, IsFresh-next,
}
use duckstore.Store.Tables.{Order, OrderItem, Shipment}

pub All-imp :
    {A : Type 0} (P Q : A → Type 0) (l : List A) → ((a : A) → P a → Q a) → All P l → All Q l
All-imp P Q [] f h = tt
All-imp P Q (a ∷ l) f h = (f a h.0, All-imp P Q l f h.1)

pub IsDue-IsOrder : (rs : List Order) (id : ℕ) (total : ℤ) → IsDue rs id total → IsOrder rs id
IsDue-IsOrder [] id total h = h
IsDue-IsOrder (r ∷ rs) id total (inl e) = inl e.0
IsDue-IsOrder (r ∷ rs) id total (inr h) = inr (IsDue-IsOrder rs id total h)

-- The key comes before the line `n` of the order `id`.
abbrev pub IsAbove : ℕ → ℕ → OrderItem → Type 0
IsAbove id n j = (j.order < id) ⊎ ((j.order ≡ id) × (j.line_no < n))

-- The newest order has this id, and its amounts are `t`.
abbrev pub IsNewest : ℕ → Totals → List Order → Type 0
IsNewest id t [] = ⊥
IsNewest id t (r ∷ rs) =
    (r.id ≡ id) × (r.total ≡ t.total) × (r.subtotal ≡ t.subtotal) × (r.discount ≡ t.discount)

pub IsNewest-IsDue :
    (id : ℕ) (t : Totals) (rs : List Order) → IsNewest id t rs → IsDue rs id t.total
IsNewest-IsDue id t [] h = h
IsNewest-IsDue id t (r ∷ rs) h = inl (h.0, h.1)

IsFresh-below :
    (n : ℕ) (rs : List Order)
    → IsFresh n (map (λ (r : Order). r.id) rs)
    → All (λ (r : Order). r.id ≤ n) rs
IsFresh-below n [] h = tt
IsFresh-below n (r ∷ rs) h =
    (h.1, All-imp _ _ rs (λ q le. omega arith) (IsFresh-below (r.id - 1) rs h.2))

-- An item of a newer order changes nothing.
AddsUp-newer :
    (is : List OrderItem) (i : OrderItem) (r : Order)
    → r.id < i.order
    → AddsUp is r
    → AddsUp (i ∷ is) r
AddsUp-newer is i r h a =
    let e : (i.order == r.id) ≡ false = ground arith in
    (
      a.0
          ∙ sym (
              ap
                (λ b.
                  if b
                  then int64 (spent is r.id +ℤ int64 (pos i.quantity *ℤ i.unit_price))
                  else spent is r.id)
                e),
      a.1 ∙ sym (ap (λ b. if b then int64 (rebated is r.id +ℤ i.discount) else rebated is r.id) e),
    )

OlderAddUp-newer :
    (n : ℕ) (is : List OrderItem) (i : OrderItem) (rs : List Order)
    → i.order ≡ n
    → IsFresh n (map (λ (r : Order). r.id) rs)
    → OlderAddUp is rs
    → OlderAddUp (i ∷ is) rs
OlderAddUp-newer n is i [] e fresh h = tt
OlderAddUp-newer n is i (r ∷ rs) e fresh h =
    both rs (All-imp _ _ rs (λ q le. omega arith) (IsFresh-below (r.id - 1) rs fresh.2)) h
  where
    both :
        (qs : List Order)
        → All (λ (q : Order). q.id < i.order) qs
        → All (AddsUp is) qs
        → All (AddsUp (i ∷ is)) qs
    both [] b h = tt
    both (q ∷ qs) b h = (AddsUp-newer is i q b.0 h.0, both qs b.1 h.1)

module _ {F : Type 0} (g : Gen F) where
  -- While the rows of the order `id` are written up to its item of the line `n`.
  pub record Filling (id : ℕ) (t : Totals) (n : ℕ) (o : Out) : Type 0 where
    pub sound : Sound g id o
    pub newest : IsNewest id t o.orders
    pub before : All (λ (r : ReturnRow). r.order < id) o.returns
    pub above : All (IsAbove id n) o.items

  ItemFits-order :
      (r : Order) (rs : List Order) (i : OrderItem) → ItemFits g rs i → ItemFits g (r ∷ rs) i
  ItemFits-order r rs i h = (h.0, inr h.1, h.2, h.3)

  ShipmentFits-order :
      (r : Order) (rs : List Order) (p : ℕ × Shipment)
      → ShipmentFits g rs p.1
      → ShipmentFits g (r ∷ rs) p.1
  ShipmentFits-order r rs p h = (h.0, inr h.1, h.2)

  -- The next order: its id is new, and no row of it is there yet.
  pub next_order :
      (last : ℕ) (o : Out) (r : Order) (t : Totals)
      → OrderFits g.end r
      → IsNewest (last + 1) t (r ∷ o.orders)
      → AllAddUp o.orders o.items
      → Sound g last o
      → Filling (last + 1) t 1 (record o { orders = r ∷ o.orders })
  next_order last o r t fits new all s = record {
    sound = record {
      orders = ((fits, s.orders.0), rw new.0 (IsFresh-next last _ s.orders.1));
      older = all;
      items = (
        All-imp _ _ o.items (ItemFits-order r o.orders) s.items.0,
        All-imp _ _ o.items (λ i h. omega arith) s.items.1,
        s.items.2,
      );
      payments = (All-imp _ _ o.payments (λ p h. (h.0, inr h.1)) s.payments.0, s.payments.1);
      shipments =
          (All-imp _ _ o.shipments (ShipmentFits-order r o.orders) s.shipments.0, s.shipments.1);
      returns = (s.returns.0, All-imp _ _ o.returns (λ i h. omega arith) s.returns.1, s.returns.2);
      reviews = s.reviews;
    };
    newest = new;
    before = All-imp _ _ o.returns (λ i h. omega arith) s.returns.1;
    above = All-imp _ _ o.items (λ i h. inl (omega arith)) s.items.1;
  }

  -- The items of the order `id` hide none that a return of an order before refers to.
  other_item :
      (is : List OrderItem) (i : OrderItem) (r : ReturnRow)
      → r.order < i.order
      → bought (i ∷ is) r.order r.line_no ≡ bought is r.order r.line_no
  other_item is i r h =
      ap (λ b. if b then i.quantity else bought is r.order r.line_no)
        (differ i.order r.order (i.line_no == r.line_no) h)
    where
      differ : (a b : ℕ) (c : Bool) → b < a → (a == b && c) ≡ false
      differ a b c h = ground arith

  returns-item :
      (is : List OrderItem) (i : OrderItem) (rs : List ReturnRow)
      → All (λ (r : ReturnRow). r.order < i.order) rs
      → All (ReturnFits g.end is) rs
      → All (ReturnFits g.end (i ∷ is)) rs
  returns-item is i [] b h = tt
  returns-item is i (r ∷ rs) b h = (
    (h.0.0, subst (λ n. r.quantity ≤ n) (sym (other_item is i r b.0)) h.0.1, h.0.2, h.0.3),
    returns-item is i rs b.1 h.1,
  )

  next_line : (i j : OrderItem) → IsAbove i.order i.line_no j → IsAbove i.order (i.line_no + 1) j
  next_line i j h = elim h [ inl e ↦ inl e | inr e ↦ inr (e.0, omega arith) ]

  pub next_item :
      (t : Totals) (o : Out) (i : OrderItem)
      → 0 < i.quantity
      → IsProduct g i.product
      → IsWarehouse g i.warehouse
      → Filling i.order t i.line_no o
      → Filling i.order t (i.line_no + 1) (record o { items = i ∷ o.items })
  next_item t o i some_of product warehouse f =
      let s = f.sound in
      record {
        sound = record {
          orders = s.orders;
          older = OlderAddUp-newer i.order o.items i o.orders refl s.orders.1 s.older;
          items = (
            (
              (
                some_of,
                IsDue-IsOrder _ _ _ (IsNewest-IsDue _ t o.orders f.newest),
                product,
                warehouse,
              ),
              s.items.0,
            ),
            (omega arith, s.items.1),
            (f.above, s.items.2),
          );
          payments = s.payments;
          shipments = s.shipments;
          returns =
              (returns-item o.items i o.returns f.before s.returns.0, s.returns.1, s.returns.2);
          reviews = s.reviews;
        };
        newest = f.newest;
        before = f.before;
        above = (inr (refl, omega arith), All-imp _ _ o.items (next_line i) f.above);
      }
