-- ===== src/Seed/Orders/Journey/Times.antt =====
-- internal/seed/orders.go: the order of the times of an order.
use duckstore.Prelude.{
  ℕ, ◌+◌, ◌*◌, ◌≤◌, ◌<◌, ◌≡◌, refl, Bool, true, false, not, ◌||◌, ltb, leb, arith, if_ind,
}
use duckstore.Prelude.Text.{Text}
use duckstore.Seed.Emit.Reads.{
  Reads, Any, then_reads, pure_reads, int_reads, coin_reads, pick_reads, if_reads, weaken_reads,
}
use duckstore.Seed.Orders.Journey.{
  Journey, Stage, hour, plus, warehouses, transit_of, travel, journey, stage_at, cut, stage,
}
use duckstore.Seed.Orders.{Country, Gen}

-- The times come one after the other; those of an order that is cancelled are zero.
abbrev pub IsOrdered : ℕ → Journey → Type 0
IsOrdered placed j =
    (placed < j.paid_at)
    × (j.shipped_at ≤ j.delivered_at)
    × (j.cancelled || leb j.paid_at j.shipped_at ≡ true)

-- From the order on, and not after the dataset's "now".
abbrev pub IsWithin : ℕ → ℕ → Stage → Type 0
IsWithin placed end st = (placed ≤ st.updated) × (st.updated ≤ end)

plus_reads : (a n : ℕ) → Reads (plus a n) Any
plus_reads a n = then_reads (int_reads n) (λ d u. pure_reads _ tt)

module _ {F : Type 0} (g : Gen F) where
  pub transit_reads :
      (carrier : Text) (cross_border : Bool) (placed : ℕ)
      → Reads (transit_of g carrier cross_border placed) Any
  unfolding transit_of
  transit_reads carrier cross_border placed = then_reads (int_reads 3) (λ k u.
      then_reads {F = Any} (if_reads _ (λ e. plus_reads 1 2) (λ e. pure_reads 0 tt)) (λ rush u.
        then_reads coin_reads (λ lost u.
          then_reads {F = Any} (if_reads lost (λ e. plus_reads 5 8) (λ e. pure_reads 0 tt))
            (λ late u. pure_reads _ tt))))

  below_sum : (a b : ℕ) → leb a (a + b) ≡ true
  below_sum a b = ground arith

  travel-IsOrdered :
      (cd : Country F) (placed paid_at warehouse : ℕ) (cross_border : Bool)
      → placed < paid_at
      → Reads (travel g cd placed paid_at warehouse cross_border) (IsOrdered placed)
  unfolding travel
  travel-IsOrdered cd placed paid_at warehouse cross_border h =
      then_reads (pick_reads cd.carriers) (λ carrier u. then_reads (int_reads (68 * hour)) (λ s u.
        then_reads (transit_reads carrier cross_border placed) (λ transit u.
          then_reads (int_reads (10 * hour))
            (λ d u. pure_reads _ (h, omega arith, below_sum paid_at (4 * hour + s))))))

  pub journey-IsOrdered :
      (cd : Country F) (placed : ℕ) → Reads (journey g cd placed) (IsOrdered placed)
  unfolding journey
  journey-IsOrdered cd placed = then_reads coin_reads (λ cancelled u.
      then_reads (int_reads (30 * 60)) (λ p u.
        then_reads (pick_reads (warehouses g cd).0) (λ warehouse u.
          if_reads cancelled (λ e. pure_reads _ (omega arith, omega arith, refl))
            (λ e.
              travel-IsOrdered cd placed (placed + (60 + p)) warehouse (warehouses g cd).1
                (omega arith)))))

cut-IsWithin :
    (end placed : ℕ) (st : Stage)
    → placed < end
    → placed ≤ st.updated
    → IsWithin placed end (cut end st)
cut-IsWithin end placed st h le =
    if_ind (IsWithin placed end) (ltb end st.updated) (λ e. (omega arith, omega arith))
      (λ e. (le, not_above end st.updated e))
  where
    not_above : (a b : ℕ) → ltb a b ≡ false → b ≤ a
    not_above a b e = ground arith

shipped_later : (b : Bool) (m n : ℕ) → (b || leb m n ≡ true) → b ≡ false → m ≤ n
shipped_later b m n h e = ground arith

-- `updated` of each case comes after the order.
stage_at-after :
    (end placed : ℕ) (j : Journey) (k : ℕ)
    → placed < end
    → IsOrdered placed j
    → placed ≤ (stage_at end placed j k).updated
unfolding stage_at
stage_at-after end placed j k h o =
    if_ind (λ (st : Stage). placed ≤ st.updated) j.cancelled (λ e. omega arith)
      (λ going.
        if_ind (λ (st : Stage). placed ≤ st.updated) (not (ltb j.paid_at end)) (λ e. omega arith)
          (λ e.
            if_ind (λ (st : Stage). placed ≤ st.updated) (not (ltb j.shipped_at end))
              (λ e. omega arith)
              (λ e.
                if_ind (λ (st : Stage). placed ≤ st.updated) (not (ltb j.delivered_at end))
                  (λ e. after_shipped going) (λ e. after_delivered going))))
  where
    after_shipped : j.cancelled ≡ false → placed ≤ j.shipped_at
    after_shipped going =
        let le = shipped_later j.cancelled j.paid_at j.shipped_at o.2 going in omega arith

    after_delivered : j.cancelled ≡ false → placed ≤ j.delivered_at
    after_delivered going =
        let le = shipped_later j.cancelled j.paid_at j.shipped_at o.2 going in omega arith

pub stage-IsWithin :
    (end placed : ℕ) (j : Journey)
    → placed < end
    → IsOrdered placed j
    → Reads (stage end placed j) (IsWithin placed end)
unfolding stage
stage-IsWithin end placed j h o =
    then_reads {F = Any}
      (if_reads j.cancelled (λ e. weaken_reads (λ a h. tt) (int_reads (48 * hour)))
        (λ e. pure_reads 0 tt))
      (λ k u.
        pure_reads _
          (cut-IsWithin end placed (stage_at end placed j k) h (stage_at-after end placed j k h o)))
