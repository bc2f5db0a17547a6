-- ===== src/Seed/Orders/Picks/Launched.antt =====
-- internal/seed/orders.go: the product that is picked for a line is on sale.
use duckstore.Prelude.{
  ℕ, zero, suc, ◌+◌, ◌-◌, ◌≡◌, ap, ◌∙◌, Bool, true, false, not, Option, none, some, get_elem?,
  length, ltb, leb, arith,
}
use duckstore.Seed.Emit.Reads.{
  Reads, Holds, Any, then_reads, pure_reads, stop_reads, must_reads, int_reads, any_int_reads,
  coin_reads, if_reads, weaken_reads,
}
use duckstore.Seed.Orders.{Product, Gen}
use duckstore.Seed.Orders.Picks.{
  try_customers, or_anyone, pick_customer, try_products, any_product, or_any, pick_product,
}

module _ {F : Type 0} (g : Gen F) where
  abbrev pub is_on_sale : ℕ → Option Product → Bool
  is_on_sale placed none = false
  is_on_sale placed (some p) = leb p.created_at placed

  -- The index is one of a product that was created by then.
  abbrev pub IsOnSale : ℕ → ℕ → Type 0
  IsOnSale placed pi = is_on_sale placed (get_elem? g.products pi) ≡ true

  not_later : (a b : ℕ) → ltb b a ≡ false → leb a b ≡ true
  not_later a b h = ground arith

  earlier : (a b : ℕ) → ltb a b ≡ true → leb a b ≡ true
  earlier a b h = ground arith

  found :
      (placed pi : ℕ) (p : Product)
      → get_elem? g.products pi ≡ some p
      → leb p.created_at placed ≡ true
      → IsOnSale placed pi
  found placed pi p e h = ap (is_on_sale placed) e ∙ h

  -- Any of them, whatever the tries are.
  tries : (n d placed : ℕ) → Reads (try_customers g n d placed) Any
  unfolding try_customers
  tries zero d placed = pure_reads none tt
  tries (suc n) d placed = then_reads coin_reads (λ soon u.
      then_reads {F = Any}
        (if_reads soon (λ e. weaken_reads (λ a h. tt) (int_reads 30)) (λ e. any_int_reads))
        (λ ago u.
          then_reads {F = Any}
            (if_reads (ltb d ago) (λ e. weaken_reads (λ a h. tt) (int_reads (d + 1)))
              (λ e. pure_reads _ tt))
            (λ e u.
              if_reads (leb (g.first_cust_of_day (e + 1)) (g.first_cust_of_day e))
                (λ h. tries n d placed)
                (λ h.
                  then_reads (int_reads (g.first_cust_of_day (e + 1) - g.first_cust_of_day e))
                    (λ k u.
                      if_reads
                        (not (ltb (g.customer (g.first_cust_of_day e + k)).created_at placed))
                        (λ h. tries n d placed)
                        (λ h. then_reads coin_reads (λ refuses u.
                          if_reads refuses (λ h. tries n d placed)
                            (λ h. pure_reads (some (g.first_cust_of_day e + k)) tt))))))))

  pub customer_reads : (d placed : ℕ) → Reads (pick_customer g d placed) Any
  unfolding pick_customer
  customer_reads d placed = then_reads (tries 30 d placed) anyone
    where
      anyone : (r : Option ℕ) → Any r → Reads (or_anyone g d r) Any
      anyone none u = then_reads (int_reads _) (λ k u. pure_reads _ tt)
      anyone (some id) u = pure_reads id tt

  tried : (placed n : ℕ) → Reads (try_products g n placed) (Holds (IsOnSale placed))
  unfolding try_products
  tried placed zero = pure_reads none tt
  tried placed (suc n) = then_reads any_int_reads (λ rank u.
      then_reads (must_reads (get_elem? g.products (g.popularity rank))) (λ p e.
        if_reads (ltb placed p.created_at) (λ h. tried placed n)
          (λ h. then_reads coin_reads (λ out u.
            if_reads out (λ _. tried placed n)
              (λ _.
                pure_reads (some (g.popularity rank))
                  (found placed _ p e (not_later p.created_at placed h)))))))

  any : (placed n : ℕ) → Reads (any_product g n placed) (IsOnSale placed)
  unfolding any_product
  any placed zero = stop_reads
  any placed (suc n) = then_reads (int_reads (length g.products)) (λ pi u.
      then_reads (must_reads (get_elem? g.products pi)) (λ p e.
        if_reads (ltb p.created_at placed)
          (λ h. pure_reads pi (found placed pi p e (earlier p.created_at placed h)))
          (λ h. any placed n)))

  -- Whatever the random numbers are, pickProduct gives the index of a product that was created by
  -- the time of the order, where it gives one, and it writes nothing.
  pub pick_product-IsOnSale : (placed : ℕ) → Reads (pick_product g placed) (IsOnSale placed)
  unfolding pick_product
  pick_product-IsOnSale placed = then_reads (tried placed 15) last
    where
      last :
          (r : Option ℕ) → Holds (IsOnSale placed) r → Reads (or_any g placed r) (IsOnSale placed)
      last none h = record { run = λ s. (any placed (length s.ints)).run s }
      last (some pi) h = record { run = λ s. (pure_reads pi h).run s }
