-- ===== src/Seed/Orders/Tests.antt =====
-- The theorems on internal/seed/orders.go at a small shop.
use duckstore.Prelude.{ℕ, ◌+◌, ◌*◌, Bool, true, false, List, [], ◌∷◌, none, arith}
use duckstore.Prelude.Int.{ℤ, pos}
use duckstore.Prelude.Text.{codes}
use duckstore.Store.Float.{Float}
use duckstore.Seed.Emit.Triple.{After}
use duckstore.Seed.Emit.Reads.{Reads}
use duckstore.Seed.Orders.Lines.{add_lines, no_lines}
use duckstore.Seed.Orders.Lines.Fit.{Fits, add_lines-Fits}
use duckstore.Seed.Orders.{Country, Gen}
use duckstore.Seed.Orders.Checks.{AllAddUp}
use duckstore.Seed.Orders.Emitted.{emit_days}
use duckstore.Seed.Orders.Emitted.Paid.{Kept, With}
use duckstore.Seed.Orders.Emitted.Valid.{from_start, emit_days-Sound}

-- Numbers that keep their first operand: the prices of a shop with the rate 1.
abbrev shop_numbers : Float
shop_numbers = record {
  F = ℤ;
  of_int = λ i. i;
  mul = λ a b. a;
  div = λ a b. a;
  less = λ a b. false;
  round = λ a. a;
}

abbrev shop_country : Country ℤ
shop_country = record {
  code = codes "FR";
  region = codes "Europe";
  currency = codes "EUR";
  tax_rate = pos 0;
  carriers = codes "Colissimo" ∷ codes "DHL" ∷ [];
}

abbrev shop : Gen ℤ
shop = record {
  end = 40 * 86400;
  customer = λ i. record { country = shop_country; is_vip = true; addr_id = 4; created_at = 0 };
  products =
      record {
        top = codes "Fashion";
        created_at = 0;
        prices = record { from = 0; cents = 250 } ∷ [];
      }
      ∷ [];
  popularity = λ r. 0;
  promotions = [];
  first_cust_of_day = λ d. d + 2;
  rate_at = λ c t. pos 1;
  wh_by_country = λ c. 3 ∷ [];
  wh_by_region = λ r. [];
  transit_days = λ c. 2;
  is_december = λ t. false;
}

abbrev shop_days : List (ℕ × ℕ × List ℕ)
shop_days = (1, 86400, 100 ∷ []) ∷ (2, 172800, 5 ∷ 700 ∷ []) ∷ []

abbrev shop_ints : List ℕ
shop_ints = 0 ∷ 0 ∷ 0 ∷ 0 ∷ 0 ∷ 1 ∷ []

abbrev shop_coins : List Bool
shop_coins = true ∷ false ∷ []

emit_days-Sound_example :
    (let r =
        emit_days shop_numbers shop shop_days 0
          (from_start shop_numbers shop shop_ints shop_coins []) in
      After (Kept shop) (With shop AllAddUp) r.0 r.1.out)
emit_days-Sound_example =
    emit_days-Sound shop_numbers shop shop_days shop_ints shop_coins []
      (((omega arith), tt), (((omega arith), ((omega arith), tt)), tt))

add_lines-Fits_example :
    Reads (add_lines shop_numbers shop none (pos 1) 900 3 0 no_lines) (Fits shop_numbers shop 900)
add_lines-Fits_example =
    add_lines-Fits shop_numbers shop none (pos 1) 900 3 0 no_lines (record { lines = tt; new = tt })
