-- ===== src/Seed/Prices.antt =====
-- internal/seed/generator.go: the price of a product and the promotions at a time.
pub mod Dates
use duckstore.Prelude.{
  ℕ, zero, suc, ◌+◌, ◌-◌, Bool, true, false, not, ◌&&◌, List, [], ◌∷◌, Option, none, some,
  get_elem?, length, ltb, leb, ◌==◌, if◌then◌else◌,
}

-- `pricePoint`
pub record PricePoint : Type 0 where
  pub from : ℕ
  pub cents : ℕ

-- The index that `slices.BinarySearchFunc` gives on points in the order of `from`: of the first one
-- that is not before the time.
unfoldable pub search : ℕ → List PricePoint → ℕ
search t [] = 0
search t (p ∷ ps) = let later = search t ps in if ltb p.from t then suc later else 0

abbrev pub cents_of : Option PricePoint → Option ℕ
cents_of none = none
cents_of (some p) = some p.cents

abbrev pub starts_at : ℕ → Option PricePoint → Bool
starts_at t none = false
starts_at t (some p) = p.from == t

abbrev pub price_before : List PricePoint → ℕ → Option ℕ
price_before prices zero = cents_of (get_elem? prices 0)
price_before prices (suc i) = cents_of (get_elem? prices i)

-- The part of `priceAt` behind the search.
abbrev pub price_from : ℕ → List PricePoint → ℕ → Option ℕ
price_from t prices i =
    if starts_at t (get_elem? prices i)
    then cents_of (get_elem? prices i)
    else price_before prices i

-- `priceAt`; none is the panic of a product without a price.
unfoldable pub price_at : ℕ → List PricePoint → Option ℕ
price_at t prices = price_from t prices (search t prices)

-- `promotion`, as far as its dates go.
pub record Promotion : Type 0 where
  pub starts : ℕ
  pub ends : ℕ

abbrev pub is_active : ℕ → Promotion → Bool
is_active t p = not (ltb t p.starts) && ltb t p.ends

-- The loop of `activePromotions` from the index `i`.
unfoldable pub active_from : ℕ → ℕ → List Promotion → List ℕ
active_from t i [] = []
active_from t i (p ∷ ps) =
    let later = active_from t (suc i) ps in if is_active t p then i ∷ later else later

-- `activePromotions`
unfoldable pub active_promotions : ℕ → List Promotion → List ℕ
unfolding active_from
active_promotions t ps = active_from t 0 ps
