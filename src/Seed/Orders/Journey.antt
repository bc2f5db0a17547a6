-- ===== src/Seed/Orders/Journey.antt =====
-- internal/seed/orders.go: when an order is paid, shipped and delivered, and its status at the
-- dataset's "now".
pub mod Times
pub mod Origin
use duckstore.Prelude.{
  ℕ, ◌+◌, ◌-◌, ◌*◌, Bool, true, false, not, List, [], ◌∷◌, Option, none, some, get_elem?, length,
  ltb, leb, if◌then◌else◌,
}
use duckstore.Prelude.Text.{Text}
use duckstore.Seed.Emit.{Emit, pure, must, ◌>>=◌, ◌>>◌, int_n, coin, pick}
use duckstore.Seed.Orders.{Country, Gen, Out}
use duckstore.Store.Tables.{OrderStatus}

-- What happens to an order after it is placed. The zero time of one that is cancelled is 0.
pub record Journey : Type 0 where
  pub cancelled : Bool
  pub paid_at : ℕ
  pub warehouse : ℕ
  pub carrier : Text
  pub shipped_at : ℕ
  pub transit : ℕ
  pub delivered_at : ℕ

-- `status` and `updated`
pub record Stage : Type 0 where
  pub status : OrderStatus
  pub updated : ℕ

abbrev pub hour : ℕ
hour = 3600

abbrev pub day : ℕ
day = 86400

-- `a + IntN(n)`
abbrev pub plus : ℕ → ℕ → Emit Out ℕ
plus a n = int_n n >>= λ d. pure (a + d)

module _ {F : Type 0} (g : Gen F) where
  abbrev pub or_region : Text → List ℕ → List ℕ × Bool
  or_region region [] = (g.wh_by_region region, true)
  or_region region (w ∷ ws) = (w ∷ ws, false)

  -- `whs` and `crossBorder`
  abbrev pub warehouses : Country F → List ℕ × Bool
  warehouses cd = or_region cd.region (g.wh_by_country cd.code)

  unfoldable pub transit_of : Text → Bool → ℕ → Emit Out ℕ
  transit_of carrier cross_border placed = int_n 3 >>= λ k.
      (if g.is_december placed then plus 1 2 else pure 0) >>= λ rush. coin >>= λ lost.
      (if lost then plus 5 8 else pure 0) >>= λ late.
      pure (g.transit_days carrier + k + (if cross_border then 3 else 0) + rush + late)

  -- The branch of an order that is not cancelled.
  unfoldable pub travel : Country F → ℕ → ℕ → ℕ → Bool → Emit Out Journey
  travel cd placed paid_at warehouse cross_border = pick cd.carriers >>= λ carrier.
      int_n (68 * hour) >>= λ s. transit_of carrier cross_border placed >>= λ transit.
      int_n (10 * hour) >>= λ d.
      let shipped_at = paid_at + (4 * hour + s) in
      pure (record {
        cancelled = false;
        paid_at = paid_at;
        warehouse = warehouse;
        carrier = carrier;
        shipped_at = shipped_at;
        transit = transit;
        delivered_at = shipped_at + (transit * day + d);
      })

  unfoldable pub journey : Country F → ℕ → Emit Out Journey
  journey cd placed = coin >>= λ cancelled. int_n (30 * 60) >>= λ p.
      let paid_at = placed + (60 + p) in
      let whs = warehouses cd in
      pick whs.0 >>= λ warehouse.
      if cancelled
      then pure (record {
        cancelled = true;
        paid_at = paid_at;
        warehouse = warehouse;
        carrier = [];
        shipped_at = 0;
        transit = 0;
        delivered_at = 0;
      })
      else travel cd placed paid_at warehouse whs.1

-- The switch, with the number that a cancelled order draws; `end` is the dataset's "now".
unfoldable pub stage_at : ℕ → ℕ → Journey → ℕ → Stage
stage_at end placed j k =
    if j.cancelled
    then record { status = OrderStatus.cancelled; updated = placed + (hour + k) }
    else if not (ltb j.paid_at end)
    then record { status = OrderStatus.pending; updated = placed }
    else if not (ltb j.shipped_at end)
    then record { status = OrderStatus.paid; updated = j.paid_at }
    else if not (ltb j.delivered_at end)
    then record { status = OrderStatus.shipped; updated = j.shipped_at }
    else record { status = OrderStatus.delivered; updated = j.delivered_at }

-- `if updated.After(g.end)`
abbrev pub cut : ℕ → Stage → Stage
cut end st = if ltb end st.updated then record st { updated = end - 1 } else st

unfoldable pub stage : ℕ → ℕ → Journey → Emit Out Stage
unfolding stage_at
stage end placed j = (if j.cancelled then int_n (48 * hour) else pure 0) >>= λ k.
    pure (cut end (stage_at end placed j k))
