-- ===== src/Seed/Orders.antt =====
-- internal/seed/orders.go: what the generator reads, and the rows that it writes. Times are in
-- seconds.
pub mod Picks
pub mod Lines
pub mod Journey
pub mod Rows
pub mod Checks
pub mod Emitted
mod Tests
use duckstore.Prelude.{
  ℕ, Bool, true, false, List, [], ◌∷◌, Option, none, some, ◌==◌, ◌||◌, ◌*◌, ◌+◌, ◌^◌,
}
use duckstore.Prelude.Int.{ℤ}
use duckstore.Prelude.Text.{Text}
use duckstore.Seed.Prices
use duckstore.Seed.Prices.{PricePoint}
use duckstore.Store.Tables.{Order, OrderItem, Payment, Shipment}

-- `countryDef`
pub record Country (F : Type 0) : Type 0 where
  pub code : Text
  pub region : Text
  pub currency : Text
  pub tax_rate : F
  pub carriers : List Text

-- `customer`, with its country looked up.
pub record Buyer (F : Type 0) : Type 0 where
  pub country : Country F
  pub is_vip : Bool
  pub addr_id : ℕ
  pub created_at : ℕ

-- `product`, with the name of its top category.
pub record Product : Type 0 where
  pub top : Text
  pub created_at : ℕ
  pub prices : List PricePoint

-- `promotion`, with its products by their index.
pub record Promotion (F : Type 0) : Type 0 where
  pub dates : Prices.Promotion
  pub pct : F
  pub set : List ℕ

-- The fields of `gen` that the orders read. `popularity` has a product for each rank of `zipf`.
pub record Gen (F : Type 0) : Type 0 where
  pub end : ℕ
  pub customer : ℕ → Buyer F
  pub products : List Product
  pub popularity : ℕ → ℕ
  pub promotions : List (Promotion F)
  pub first_cust_of_day : ℕ → ℕ
  pub rate_at : Text → ℕ → F
  pub wh_by_country : Text → List ℕ
  pub wh_by_region : Text → List ℕ
  pub transit_days : Text → ℕ
  pub is_december : ℕ → Bool

-- `orderLine`
pub record OrderLine : Type 0 where
  pub product : ℕ
  pub qty : ℕ
  pub unit : ℤ
  pub disc : ℤ
  pub returned : Bool

pub data ReturnStatus : Type 0 where
  requested approved refunded rejected : ReturnStatus

pub record ReturnRow : Type 0 where
  pub id : ℕ
  pub order : ℕ
  pub line_no : ℕ
  pub quantity : ℕ
  pub reason : Text
  pub status : ReturnStatus
  pub refund : ℤ
  pub requested_at : ℕ

-- The title and the body are random texts and are left out.
pub record ReviewRow : Type 0 where
  pub id : ℕ
  pub product : ℕ
  pub customer : ℕ
  pub rating : ℕ
  pub created_at : ℕ

-- What the six streams have, each with the newest row first, and `orderCounters`.
pub record Out : Type 0 where
  pub orders : List Order
  pub items : List OrderItem
  pub payments : List (ℕ × Payment)
  pub shipments : List (ℕ × Shipment)
  pub returns : List ReturnRow
  pub reviews : List ReviewRow
  pub payment : ℕ
  pub shipment : ℕ
  pub ret : ℕ
  pub review : ℕ
  pub reviewed : List ℕ

-- A test for an item, as on a map that is a set.
abbrev pub has : List ℕ → ℕ → Bool
has [] k = false
has (x ∷ xs) k = x == k || has xs k

-- `uint64(l.product)<<32 | uint64(custID)`, where the ids of customers are below 2^32.
abbrev pub review_key : ℕ → ℕ → ℕ
review_key product customer = product * 2 ^ 32 + customer
