-- ===== src/Store.antt =====
-- internal/web/checkout.go and internal/web/store.go: carts, checkout, the lifecycle of an order and
-- the change of a price, over the tables of internal/pg/schema.
mod Tests
pub mod Tables
pub mod Tx
pub mod Carts
pub mod Float
pub mod Checkout
pub mod Orders
pub mod Pricing
