-- ===== src/Seed/Orders/Checks.antt =====
-- internal/seed/orders.go: what the tables of internal/pg/schema want of the rows, and that each
-- row that is added keeps it.
pub mod Items
pub mod Steps
use duckstore.Prelude.{
  ℕ, suc, ◌+◌, ◌-◌, ◌≤◌, ◌<◌, ◌≡◌, refl, Bool, true, false, not, ◌&&◌, ◌||◌, List, [], ◌∷◌, map,
  Option, none, some, arith, All, ◌⊎◌, get_elem?, leb, ◌==◌, if◌then◌else◌,
}
use duckstore.Prelude.Int.{ℤ, pos, ◌+ℤ◌, ◌-ℤ◌, ◌*ℤ◌, int64}
use duckstore.Seed.Emit.Reads.{IsIn}
use duckstore.Seed.Emit.Triple
use duckstore.Seed.Emit.Triple.{Triple, adds}
use duckstore.Prelude.Text.{Text, codes}
use duckstore.Seed.Orders.{Product, Gen, ReturnRow, ReviewRow, Out, has, review_key}
use duckstore.Seed.Orders.Rows.{
  add_order, add_item, add_payment, add_shipment, add_return, add_review,
}
use duckstore.Store.Tables.{Order, OrderItem, Payment, Shipment, ShipmentStatus}

-- `CHECK (method IN (...))` of `payments`
abbrev pub allowed_methods : List Text
allowed_methods =
    codes "card" ∷ codes "paypal" ∷ codes "bank_transfer" ∷ codes "gift_card" ∷ codes "pix" ∷ []

-- `CHECK (reason IN (...))` of `returns`
abbrev pub allowed_reasons : List Text
allowed_reasons =
    codes "damaged"
    ∷ codes "wrong_item"
    ∷ codes "wrong_size"
    ∷ codes "not_as_described"
    ∷ codes "changed_mind"
    ∷ codes "late_delivery"
    ∷ []

-- There is an order with this id.
abbrev pub IsOrder : List Order → ℕ → Type 0
IsOrder [] id = ⊥
IsOrder (r ∷ rs) id = (r.id ≡ id) ⊎ IsOrder rs id

-- There is an order with this id and this total.
abbrev pub IsDue : List Order → ℕ → ℤ → Type 0
IsDue [] id total = ⊥
IsDue (r ∷ rs) id total = ((r.id ≡ id) × (r.total ≡ total)) ⊎ IsDue rs id total

module _ {F : Type 0} (g : Gen F) where
  -- `id` is the id of one of the products: its place in `g.products`, counted from 1.
  abbrev pub IsProduct : ℕ → Type 0
  IsProduct id = (1 ≤ id) × (p : Product) × (get_elem? g.products (id - 1) ≡ some p)

  -- A warehouse of some country or of some region.
  abbrev pub IsWarehouse : ℕ → Type 0
  IsWarehouse w = (place : Text) × (IsIn (g.wh_by_country place) w ⊎ IsIn (g.wh_by_region place) w)

-- `CHECK (total = subtotal - discount + shipping_fee + tax)`, in int64, and no time of the row is
-- after the dataset's "now".
abbrev pub OrderFits : ℕ → Order → Type 0
OrderFits end r =
    (r.total ≡ int64 (int64 (int64 (r.subtotal -ℤ r.discount) +ℤ r.shipping_fee) +ℤ r.tax))
    × (r.placed_at ≤ r.updated_at)
    × (r.updated_at ≤ end)

-- `CHECK (quantity > 0)`, and the foreign keys on the orders, the products and the warehouses.
abbrev pub ItemFits : {F : Type 0} → Gen F → List Order → OrderItem → Type 0
ItemFits g orders r =
    (0 < r.quantity) × IsOrder orders r.order × IsProduct g r.product × IsWarehouse g r.warehouse

-- `CHECK (method IN (...))` and the foreign key on the orders; the amount is the total of that order.
abbrev pub PaymentFits : List Order → Payment → Type 0
PaymentFits orders r = IsIn allowed_methods r.method × IsDue orders r.order r.amount

-- The key of `order_items` comes before that of `i`.
abbrev pub IsBefore : OrderItem → OrderItem → Type 0
IsBefore i j = (j.order < i.order) ⊎ ((j.order ≡ i.order) × (j.line_no < i.line_no))

-- The keys `(order_id, line_no)` fall from the newest row on: they are a primary key.
abbrev pub AreKeyed : List OrderItem → Type 0
AreKeyed [] = Unit {0}
AreKeyed (i ∷ is) = All (IsBefore i) is × AreKeyed is

abbrev pub is_null : Option ℕ → Bool
is_null none = true
is_null (some _) = false

abbrev pub not_before : Option ℕ → Option ℕ → Bool
not_before none t = true
not_before (some d) none = false
not_before (some d) (some t) = leb t d

abbrev pub is_preparing : ShipmentStatus → Bool
is_preparing ShipmentStatus.preparing = true
is_preparing _ = false

abbrev pub is_delivered : ShipmentStatus → Bool
is_delivered ShipmentStatus.delivered = true
is_delivered _ = false

abbrev pub same : Bool → Bool → Bool
same true b = b
same false b = not b

-- The three CHECKs of `shipments` on its times.
abbrev pub shipment_allowed : Shipment → Bool
shipment_allowed r =
    same (is_preparing r.status) (is_null r.shipped_at)
    && same (is_delivered r.status) (not (is_null r.delivered_at))
    && not_before r.delivered_at r.shipped_at

-- Those, and the foreign keys on the orders and the warehouses.
abbrev pub ShipmentFits : {F : Type 0} → Gen F → List Order → Shipment → Type 0
ShipmentFits g orders r =
    (shipment_allowed r ≡ true) × IsOrder orders r.order × IsWarehouse g r.warehouse

-- The item of an order line, with how many.
abbrev pub bought : List OrderItem → ℕ → ℕ → ℕ
bought [] order line_no = 0
bought (i ∷ is) order line_no =
    if i.order == order && i.line_no == line_no then i.quantity else bought is order line_no

-- The CHECKs of `returns` and the foreign key on the items; no more comes back than was bought, and
-- it is asked for before the dataset's "now".
abbrev pub ReturnFits : ℕ → List OrderItem → ReturnRow → Type 0
ReturnFits end items r =
    (0 < r.quantity)
    × (r.quantity ≤ bought items r.order r.line_no)
    × (r.requested_at < end)
    × IsIn allowed_reasons r.reason

-- `CHECK (rating BETWEEN 1 AND 5)` and the foreign key on the products.
abbrev pub ReviewFits : {F : Type 0} → Gen F → ReviewRow → Type 0
ReviewFits g r = (1 ≤ r.rating) × (r.rating ≤ 5) × (r.created_at < g.end) × IsProduct g r.product

-- What the items of an order cost, and what is taken off, added up in int64 as they are written.
abbrev pub spent : List OrderItem → ℕ → ℤ
spent [] order = pos 0
spent (i ∷ is) order =
    if i.order == order
    then int64 (spent is order +ℤ int64 (pos i.quantity *ℤ i.unit_price))
    else spent is order

abbrev pub rebated : List OrderItem → ℕ → ℤ
rebated [] order = pos 0
rebated (i ∷ is) order =
    if i.order == order then int64 (rebated is order +ℤ i.discount) else rebated is order

-- The subtotal and the discount of the order are those of its items.
abbrev pub AddsUp : List OrderItem → Order → Type 0
AddsUp is r = (r.subtotal ≡ spent is r.id) × (r.discount ≡ rebated is r.id)

-- All orders add up but the newest, whose items may not all be written.
abbrev pub OlderAddUp : List OrderItem → List Order → Type 0
OlderAddUp is [] = Unit {0}
OlderAddUp is (r ∷ rs) = All (AddsUp is) rs

abbrev pub AllAddUp : List Order → List OrderItem → Type 0
AllAddUp rs is = All (AddsUp is) rs

-- The ids fall from the newest row on, and none is above `n`: they are a primary key.
abbrev pub IsFresh : ℕ → List ℕ → Type 0
IsFresh n [] = Unit {0}
IsFresh n (i ∷ is) = (1 ≤ i) × (i ≤ n) × IsFresh (i - 1) is

-- No item twice.
abbrev pub IsDistinct : List ℕ → Type 0
IsDistinct [] = Unit {0}
IsDistinct (k ∷ ks) = (has ks k ≡ false) × IsDistinct ks

abbrev pub key_of : ReviewRow → ℕ
key_of r = review_key (r.product - 1) r.customer

abbrev pub OrderRows : ℕ → ℕ → List Order → Type 0
OrderRows end last rs = All (OrderFits end) rs × IsFresh last (map (λ (r : Order). r.id) rs)

abbrev pub ItemRows : {F : Type 0} → Gen F → ℕ → List Order → List OrderItem → Type 0
ItemRows g last orders rs =
    All (ItemFits g orders) rs × All (λ (r : OrderItem). r.order ≤ last) rs × AreKeyed rs

abbrev pub PaymentRows : ℕ → List Order → List (ℕ × Payment) → Type 0
PaymentRows n orders rs =
    All (λ (p : ℕ × Payment). PaymentFits orders p.1) rs
    × IsFresh n (map (λ (p : ℕ × Payment). p.0) rs)

abbrev pub ShipmentRows : {F : Type 0} → Gen F → ℕ → List Order → List (ℕ × Shipment) → Type 0
ShipmentRows g n orders rs =
    All (λ (p : ℕ × Shipment). ShipmentFits g orders p.1) rs
    × IsFresh n (map (λ (p : ℕ × Shipment). p.0) rs)

abbrev pub ReturnRows : ℕ → ℕ → List OrderItem → ℕ → List ReturnRow → Type 0
ReturnRows end last items n rs =
    All (ReturnFits end items) rs
    × All (λ (r : ReturnRow). r.order ≤ last) rs
    × IsFresh n (map (λ (r : ReturnRow). r.id) rs)

-- A customer has one review of a product, and `reviewed` knows it.
abbrev pub ReviewRows : {F : Type 0} → Gen F → ℕ → List ℕ → List ReviewRow → Type 0
ReviewRows g n reviewed rs =
    All (ReviewFits g) rs
    × IsFresh n (map (λ (r : ReviewRow). r.id) rs)
    × IsDistinct (map key_of rs)
    × All (λ (r : ReviewRow). has reviewed (key_of r) ≡ true) rs

-- What holds of the rows while the orders up to `last` are written.
pub record Sound {F : Type 0} (g : Gen F) (last : ℕ) (o : Out) : Type 0 where
  pub orders : OrderRows g.end last o.orders
  pub older : OlderAddUp o.items o.orders
  pub items : ItemRows g last o.orders o.items
  pub payments : PaymentRows o.payment o.orders o.payments
  pub shipments : ShipmentRows g o.shipment o.orders o.shipments
  pub returns : ReturnRows g.end last o.items o.ret o.returns
  pub reviews : ReviewRows g o.review o.reviewed o.reviews

pub IsFresh-more : (n m : ℕ) (is : List ℕ) → n ≤ m → IsFresh n is → IsFresh m is
IsFresh-more n m [] le h = tt
IsFresh-more n m (i ∷ is) le h = (h.0, omega arith, h.2)

pub IsFresh-next : (n : ℕ) (is : List ℕ) → IsFresh n is → IsFresh (n + 1) ((n + 1) ∷ is)
IsFresh-next n is h = (omega arith, omega arith, IsFresh-more n (n + 1 - 1) is (omega arith) h)
