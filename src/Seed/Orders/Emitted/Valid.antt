-- ===== src/Seed/Orders/Emitted/Valid.antt =====
-- internal/seed/orders.go: whatever the random numbers are and wherever it stops, the rows of the
-- orders keep what the tables want of them.
use duckstore.Prelude.{ℕ, ◌+◌, ◌<◌, refl, Bool, List, [], ◌∷◌, All}
use duckstore.Seed.Emit.Reads.{draws, int_reads, both_reads}
use duckstore.Seed.Emit.Triple.{After, bind, returns}
use duckstore.Seed.Emit.{Emitting}
use duckstore.Seed.Orders.Checks.{AllAddUp}
use duckstore.Seed.Orders.Emitted.{emit_order, emit_day, emit_days}
use duckstore.Seed.Orders.Emitted.Paid.{Kept, Holding, With, kept}
use duckstore.Seed.Orders.Emitted.Written.{write_order-Sound, totals-IsSum}
use duckstore.Seed.Orders.Journey.Times.{journey-IsOrdered, stage-IsWithin}
use duckstore.Seed.Orders.Journey.Origin.{journey-IsWarehouse}
use duckstore.Seed.Orders.Lines.{no_lines}
use duckstore.Seed.Orders.Lines.Fit.{code_reads, add_lines-Fits}
use duckstore.Seed.Orders.Lines.Sums.{add_lines-IsSummed}
use duckstore.Seed.Orders.Picks.Launched.{customer_reads}
use duckstore.Seed.Orders.{Gen, Out}
use duckstore.Store.Float.{Float}

module _ (fl : Float) (g : Gen (fl.F)) where
  -- emitOrder keeps the rows sound, and the order's id is then the last.
  emit_order-Sound :
      (last d placed : ℕ) (active : List ℕ)
      → placed < g.end
      → Holding g
          (With g AllAddUp last)
          (emit_order fl g (last + 1) d placed active)
          (λ _. With g AllAddUp (last + 1))
  unfolding emit_order
  emit_order-Sound last d placed active early =
      let c = g.customer in
      let keep = λ (o : Out) (p : With g AllAddUp last o). kept g o p.0 in
      draws keep (customer_reads g d placed) (λ customer u.
        draws keep (code_reads fl g active) (λ code u. draws keep (int_reads 6) (λ k u.
          draws keep
            (both_reads
              (add_lines-Fits fl g code _ placed (1 + k) 0 no_lines
                (record { lines = tt; new = tt }))
              (add_lines-IsSummed fl g code _ placed (1 + k) 0 no_lines (refl, refl)))
            (λ b fits.
              draws keep
                (both_reads (journey-IsOrdered g (c customer).country placed)
                  (journey-IsWarehouse g (c customer).country placed))
                (λ j ordered.
                  draws keep (stage-IsWithin g.end placed j early ordered.0) (λ st within.
                    write_order-Sound fl g last customer (c customer) code placed b _ j st fits
                      (totals-IsSum fl g (c customer) _ b) ordered within))))))

  -- The orders of a day come before the dataset's "now".
  abbrev pub AreEarly : ℕ → List ℕ → Type 0
  AreEarly start secs = All (λ (sec : ℕ). start + sec < g.end) secs

  emit_day-Sound :
      (d start : ℕ) (active secs : List ℕ) (id : ℕ)
      → AreEarly start secs
      → Holding g
          (With g AllAddUp id)
          (emit_day fl g d start active secs id)
          (λ id'. With g AllAddUp id')
  unfolding emit_day
  emit_day-Sound d start active [] id early = returns (Kept g) id (λ o p. p)
  emit_day-Sound d start active (sec ∷ secs) id early =
      bind (Kept g) (emit_order-Sound id d (start + sec) active early.0)
        (λ u. emit_day-Sound d start active secs (id + 1) early.1)

  abbrev pub Day : Type 0
  Day = ℕ × ℕ × List ℕ

  days-Sound :
      (days : List Day) (id : ℕ)
      → All (λ (day : Day). AreEarly day.1 day.2) days
      → Holding g (With g AllAddUp id) (emit_days fl g days id) (λ id'. With g AllAddUp id')
  unfolding emit_days
  days-Sound [] id early = returns (Kept g) id (λ o p. p)
  days-Sound ((d, start, secs) ∷ days) id early =
      bind (Kept g) (emit_day-Sound d start _ secs id early.0) (λ id'. days-Sound days id' early.1)

  abbrev pub no_rows : Out
  no_rows = record {
    orders = [];
    items = [];
    payments = [];
    shipments = [];
    returns = [];
    reviews = [];
    payment = 0;
    shipment = 0;
    ret = 0;
    review = 0;
    reviewed = [];
  }

  abbrev pub from_start : List ℕ → List Bool → List Bool → Emitting Out
  from_start ints coins faults = record {
    ints = ints;
    coins = coins;
    faults = faults;
    out = no_rows;
  }

  -- Where no order is placed at or after the end, whatever the random numbers are and whichever rows
  -- a stream refuses, these hold of the rows that generateOrders leaves.
  --   * Orders: the ids are a key, the total is the sum of its parts, and the update is from the
  --     order to the end. The subtotal and the discount are the sums over the order's items; where
  --     an error ended the run, the newest order is left out of that. All sums are in int64.
  --   * Items: order and line number are a key, the quantity is above 0, and the order, the product
  --     and the warehouse exist.
  --   * Payments: the ids are a key, the method is of the CHECK, and the amount is the total of the
  --     order, which exists.
  --   * Shipments: the ids are a key, the CHECKs on the times hold, and the order and the warehouse
  --     exist.
  --   * Returns: the ids are a key, the reason is of the CHECK, and from 1 up to all units of an item
  --     that exists come back, asked for before the end.
  --   * Reviews: the ids are a key, the rating is 1 to 5, the product exists, no customer reviews one
  --     twice, and they are from before the end.
  pub emit_days-Sound :
      (days : List Day) (ints : List ℕ) (coins faults : List Bool)
      → All (λ (day : Day). AreEarly day.1 day.2) days
      → (let r = emit_days fl g days 0 (from_start ints coins faults) in
          After (Kept g) (With g AllAddUp) r.0 r.1.out)
  emit_days-Sound days ints coins faults early =
      (days-Sound days 0 early).run (from_start ints coins faults) (
        (record {
          orders = (tt, tt);
          older = tt;
          items = (tt, tt, tt);
          payments = (tt, tt);
          shipments = (tt, tt);
          returns = (tt, tt, tt);
          reviews = (tt, tt, tt, tt);
        }),
        tt,
      )
