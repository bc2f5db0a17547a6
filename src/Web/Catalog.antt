-- ===== src/Web/Catalog.antt =====
-- internal/web/store.go: `category` and `warehouseProducts`. The queries that they run are tables: the
-- products of a category in the order of the sort, and those that Postgres knows.
pub mod Paged
use duckstore.Prelude.{
  ℕ, zero, suc, ◌+◌, ◌-◌, ◌*◌, ◌/◌, Bool, true, false, List, [], ◌∷◌, Option, none, some, length,
  take, drop, max, map, ◌==◌, if◌then◌else◌,
}
use duckstore.Prelude.Int.{ℤ, pos, negsuc}
use duckstore.Prelude.Text.{Text, codes, equal}
use duckstore.Store.Carts.{atoi}

-- The keys of `categorySorts`.
abbrev pub sorts : List Text
sorts = codes "name" ∷ codes "price" ∷ codes "price_desc" ∷ codes "newest" ∷ []

abbrev pub is_sort : Text → List Text → Bool
is_sort s [] = false
is_sort s (t ∷ ts) = if equal s t then true else is_sort s ts

-- `d.Sort`
unfoldable pub sort_of : Text → Text
sort_of s = if is_sort s sorts then s else codes "name"

abbrev pub at_least_one : ℤ → ℕ
at_least_one (pos n) = max 1 n
at_least_one (negsuc _) = 1

-- `d.Page`
unfoldable pub page_of : Text → ℕ
page_of s = at_least_one (atoi s)

abbrev pub page_size : ℕ
page_size = 24

-- `categoryData`, with the products of the page.
pub record CategoryPage (A : Type 0) : Type 0 where
  pub products : List A
  pub total : ℕ
  pub page : ℕ
  pub pages : ℕ

-- `count(*) OVER ()`, which only a row has.
abbrev pub total_of : {A : Type 0} → List A → ℕ → ℕ
total_of [] n = 0
total_of (_ ∷ _) n = n

-- `math.Ceil(float64(d.Total) / 24)`
abbrev pub pages_of : ℕ → ℕ
pages_of total = (total + (page_size - 1)) / page_size

-- `sqlCategoryProducts`, on the products of the category and all below it. The offset is a whole
-- number here; the source's is an int, which wraps around for the pages beyond 2^63 / 24, far behind
-- the last page of any category.
abbrev pub page_rows : {A : Type 0} → ℕ → List A → List A
page_rows page products = take page_size (drop ((page - 1) * page_size) products)

-- `category` on a page.
unfoldable pub category_page : {A : Type 0} → ℕ → List A → CategoryPage A
category_page page products =
    let rows = page_rows page products in
    let total = total_of rows (length products) in
    record { products = rows; total = total; page = page; pages = pages_of total }

-- `productCard`, as far as it matters here.
pub record Card : Type 0 where
  pub id : ℕ
  pub name : Text
  pub price : ℕ
  pub units : ℕ
  pub reviews : ℕ

-- A row of the warehouse, as `pick` reads it.
pub record Ranked : Type 0 where
  pub id : ℕ
  pub units : ℕ
  pub reviews : ℕ

-- `byID`: where an id comes twice, the last card.
abbrev pub by_id : ℕ → List Card → Option Card
by_id id [] = none
by_id id (c ∷ cs) = elim (by_id id cs) [
  | some d ↦ some d
  | none ↦ if c.id == id then some c else none
]

abbrev pub with_card : Ranked → Option Card → List Card → List Card
with_card r none out = out
with_card r (some c) out = record c { units = r.units; reviews = r.reviews } ∷ out

-- The last loop of `warehouseProducts`.
unfoldable pub merge : List Card → List Ranked → List Card
merge live [] = []
merge live (r ∷ rs) = with_card r (by_id r.id live) (merge live rs)
