-- ===== src/Seed/Orders/Picks.antt =====
-- internal/seed/orders.go: `pickCustomer` and `pickProduct`.
pub mod Launched
use duckstore.Prelude.{
  ℕ, zero, suc, ◌+◌, ◌-◌, Bool, true, false, not, ◌&&◌, ◌||◌, List, [], ◌∷◌, Option, none, some,
  get_elem?, length, ltb, leb, if◌then◌else◌,
}
use duckstore.Seed.Emit.{Emit, pure, stop, must, ◌>>=◌, ◌>>◌, int_n, any_int, coin}
use duckstore.Seed.Orders.{Buyer, Product, Gen, Out}

module _ {F : Type 0} (g : Gen F) where
  -- The loop of `pickCustomer` over its 30 tries; -1 is none.
  unfoldable pub try_customers : ℕ → ℕ → ℕ → Emit Out (Option ℕ)
  try_customers zero d placed = pure none
  try_customers (suc tries) d placed = coin >>= λ soon.
      (if soon then int_n 30 else any_int) >>= λ ago.
      (if ltb d ago then int_n (d + 1) else pure (d - ago)) >>= λ e.
      let lo = g.first_cust_of_day e in
      let next = g.first_cust_of_day (e + 1) in
      if leb next lo
      then try_customers tries d placed
      else int_n (next - lo) >>= λ k.
          if not (ltb (g.customer (lo + k)).created_at placed)
          then try_customers tries d placed
          else coin >>= λ refuses.
              if refuses then try_customers tries d placed else pure (some (lo + k))

  abbrev pub or_anyone : ℕ → Option ℕ → Emit Out ℕ
  or_anyone d none = int_n (g.first_cust_of_day d - 1) >>= λ k. pure (1 + k)
  or_anyone d (some id) = pure id

  -- `pickCustomer`
  unfoldable pub pick_customer : ℕ → ℕ → Emit Out ℕ
  pick_customer d placed = try_customers 30 d placed >>= or_anyone d

  -- The loop of `pickProduct` over its 15 tries.
  unfoldable pub try_products : ℕ → ℕ → Emit Out (Option ℕ)
  try_products zero placed = pure none
  try_products (suc tries) placed = any_int >>= λ rank.
      must (get_elem? g.products (g.popularity rank)) >>= λ p.
      if ltb placed p.created_at
      then try_products tries placed
      else coin >>= λ out_of_season.
          if out_of_season then try_products tries placed else pure (some (g.popularity rank))

  -- The last loop of `pickProduct`, over the random numbers to come. Where they end it goes on for
  -- ever, as it does when there is no such product.
  unfoldable pub any_product : ℕ → ℕ → Emit Out ℕ
  any_product zero placed = stop
  any_product (suc tries) placed = int_n (length g.products) >>= λ pi.
      must (get_elem? g.products pi) >>= λ p.
      if ltb p.created_at placed then pure pi else any_product tries placed

  abbrev pub or_any : ℕ → Option ℕ → Emit Out ℕ
  or_any placed none s = any_product (length s.ints) placed s
  or_any placed (some pi) s = pure pi s

  -- `pickProduct`
  unfoldable pub pick_product : ℕ → Emit Out ℕ
  pick_product placed = try_products 15 placed >>= or_any placed
