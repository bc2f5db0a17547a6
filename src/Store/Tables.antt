-- ===== src/Store/Tables.antt =====
-- internal/pg/schema/01_tables.sql: the tables that the store's transactions read and write. Money
-- is in cents and time in seconds. Identity columns that no statement reads are left out, and so
-- are the columns that only the pages show.
use duckstore.Prelude.{ℕ, List, Option}
use duckstore.Prelude.Int.{ℤ}
use duckstore.Prelude.Text.{Text}

pub record Cart : Type 0 where
  pub id : ℕ
  pub customer : ℕ
  pub updated_at : ℕ

pub record CartItem : Type 0 where
  pub cart : ℕ
  pub product : ℕ
  pub quantity : ℕ

pub record Product : Type 0 where
  pub id : ℕ
  pub price : ℕ

-- A row of `product_prices`; `valid_to` is NULL for the current price.
pub record Price : Type 0 where
  pub product : ℕ
  pub valid_from : ℕ
  pub valid_to : Option ℕ
  pub price : ℕ

pub record Stock : Type 0 where
  pub warehouse : ℕ
  pub product : ℕ
  pub on_hand : ℕ
  pub updated_at : ℕ

pub record Warehouse : Type 0 where
  pub id : ℕ
  pub country : Text

pub record Country : Type 0 where
  pub code : Text
  pub region : Text

pub record Address : Type 0 where
  pub id : ℕ
  pub customer : ℕ
  pub kind : Text
  pub is_default : ℕ

-- `discount_pct` is a numeric(5,2): `pct` counts hundredths of a percent.
pub record Promotion : Type 0 where
  pub id : ℕ
  pub code : Text
  pub pct : ℕ
  pub starts_at : ℕ
  pub ends_at : ℕ

pub record PromotionProduct : Type 0 where
  pub promotion : ℕ
  pub product : ℕ

pub data OrderStatus : Type 0 where
  pending paid shipped delivered cancelled : OrderStatus

pub record Order : Type 0 where
  pub id : ℕ
  pub customer : ℕ
  pub address : ℕ
  pub promotion : Option ℕ
  pub status : OrderStatus
  pub currency : Text
  pub subtotal : ℤ
  pub discount : ℤ
  pub shipping_fee : ℤ
  pub tax : ℤ
  pub total : ℤ
  pub placed_at : ℕ
  pub updated_at : ℕ

pub record OrderItem : Type 0 where
  pub order : ℕ
  pub line_no : ℕ
  pub product : ℕ
  pub warehouse : ℕ
  pub quantity : ℕ
  pub unit_price : ℤ
  pub discount : ℤ

pub data PaymentStatus : Type 0 where
  authorized captured refunded failed : PaymentStatus

pub record Payment : Type 0 where
  pub order : ℕ
  pub method : Text
  pub status : PaymentStatus
  pub amount : ℤ
  pub paid_at : ℕ

pub data ShipmentStatus : Type 0 where
  preparing in_transit delivered : ShipmentStatus

pub record Shipment : Type 0 where
  pub order : ℕ
  pub warehouse : ℕ
  pub carrier : Text
  pub tracking : Text
  pub status : ShipmentStatus
  pub shipped_at : Option ℕ
  pub delivered_at : Option ℕ

pub record Return : Type 0 where
  pub order : ℕ
  pub line_no : ℕ
  pub quantity : ℕ
  pub reason : Text
  pub refund : ℤ
  pub requested_at : ℕ

-- The rows of every table. Promotions, products, addresses and the two geography tables are only
-- read here, but for `products.price_usd` and `product_prices`.
pub record Db : Type 0 where
  pub carts : List Cart
  pub cart_items : List CartItem
  pub products : List Product
  pub prices : List Price
  pub inventory : List Stock
  pub warehouses : List Warehouse
  pub countries : List Country
  pub addresses : List Address
  pub promotions : List Promotion
  pub promotion_products : List PromotionProduct
  pub orders : List Order
  pub order_items : List OrderItem
  pub payments : List Payment
  pub shipments : List Shipment
  pub returns : List Return
