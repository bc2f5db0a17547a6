-- ===== src/Seed/Orders/Journey/Origin.antt =====
-- internal/seed/orders.go: the warehouse that an order ships from.
use duckstore.Prelude.{ℕ, ◌+◌, ◌*◌, ◌≡◌, refl, subst, Bool, List, [], ◌∷◌, inl, inr}
use duckstore.Seed.Emit.Reads.{
  Reads, IsIn, then_reads, pure_reads, int_reads, coin_reads, pick_reads, pick_member, if_reads,
}
use duckstore.Seed.Orders.Checks.{IsWarehouse}
use duckstore.Seed.Orders.Journey.Times.{transit_reads}
use duckstore.Seed.Orders.Journey.{Journey, hour, or_region, warehouses, travel, journey}
use duckstore.Seed.Orders.{Country, Gen}

module _ {F : Type 0} (g : Gen F) where
  or_region-IsWarehouse :
      (cd : Country F) (ws : List ℕ) (w : ℕ)
      → ws ≡ g.wh_by_country cd.code
      → IsIn (or_region g cd.region ws).0 w
      → IsWarehouse g w
  or_region-IsWarehouse cd [] w e h = (cd.region, inr h)
  or_region-IsWarehouse cd (x ∷ ws) w e h = (cd.code, inl (subst (λ l. IsIn l w) e h))

  abbrev ShipsFrom : Journey → Type 0
  ShipsFrom j = IsWarehouse g j.warehouse

  travel-ShipsFrom :
      (cd : Country F) (placed paid_at warehouse : ℕ) (cross_border : Bool)
      → IsWarehouse g warehouse
      → Reads (travel g cd placed paid_at warehouse cross_border) ShipsFrom
  unfolding travel
  travel-ShipsFrom cd placed paid_at warehouse cross_border h =
      then_reads (pick_reads cd.carriers) (λ carrier u. then_reads (int_reads (68 * hour)) (λ s u.
        then_reads (transit_reads g carrier cross_border placed)
          (λ transit u. then_reads (int_reads (10 * hour)) (λ d u. pure_reads _ h))))

  pub journey-IsWarehouse :
      (cd : Country F) (placed : ℕ) → Reads (journey g cd placed) (λ j. IsWarehouse g j.warehouse)
  unfolding journey
  journey-IsWarehouse cd placed = then_reads coin_reads (λ cancelled u.
      then_reads (int_reads (30 * 60)) (λ p u.
        then_reads (pick_member (warehouses g cd).0) (λ warehouse from.
          let known = or_region-IsWarehouse cd (g.wh_by_country cd.code) warehouse refl from in
          if_reads cancelled (λ e. pure_reads _ known)
            (λ e.
              travel-ShipsFrom cd placed (placed + (60 + p)) warehouse (warehouses g cd).1 known))))
