-- ===== src/Seed.antt =====
-- internal/seed: the generator of the store's data.
mod Tests
pub mod Categories
pub mod Copy
pub mod Emit
pub mod Loads
pub mod Signups
pub mod Slug
pub mod Prices
pub mod Orders
pub mod Staff
