-- ===== src/Seed/Tests.antt =====
-- The theorems on internal/seed at a small input.
use duckstore.Prelude.{ℕ, ◌≡◌, ◌⊎◌, ◌↔◌, true, false, suc, length, refl, List, [], ◌∷◌, some, arith}
use duckstore.Seed.Copy.{new_stream, start_reader, copy, add_all}
use duckstore.Seed.Copy.Order.{copy-add_all}
use duckstore.Seed.Prices.{PricePoint, price_at}
use duckstore.Seed.Prices.Dates.{last_price, price_at-last_price}
use duckstore.Prelude.Int.{ℤ, pos}
use duckstore.Prelude.Text.{Text, codes, equal}
use duckstore.Seed.Categories.{
  CatDefs, cat_def, no_defs, more_defs, build_categories, walk, append, category_of, descend,
  wanted,
}
use duckstore.Seed.Categories.Forest.{build_categories-Under}
use duckstore.Seed.Categories.Under.{Under}
use duckstore.Seed.Emit.Reads.{Reads}
use duckstore.Seed.Loads.{copy_iter, price_row_of, supplier_rows, stock_rows_of}
use duckstore.Seed.Loads.Nested.{all_rows}
use duckstore.Seed.Loads.Unique.{AreUnique, copy_rows-AreUnique}
use duckstore.Seed.Loads.Versions.{AreHistories, price_rows-AreHistories}
use duckstore.Seed.Orders.{has}
use duckstore.Seed.Signups.{build_customers}
use duckstore.Seed.Signups.Consistent.{Consistent, build_customers-Consistent}
use duckstore.Store.Float.{Float}
use duckstore.Seed.Slug.{slugify}
use duckstore.Seed.Slug.Shape.{IsSlug, slugify-IsSlug}
use duckstore.Seed.Staff.{Staff, Region, build_employees}
use duckstore.Seed.Staff.Tree.{IsTree, build_employees-IsTree}

abbrev numbers : List ℕ
numbers = 7 ∷ 8 ∷ 9 ∷ []

copy-add_all_example : copy 4 (start_reader (add_all numbers new_stream).ch) ≡ some (numbers, 3)
copy-add_all_example = copy-add_all numbers

abbrev first_point : PricePoint
first_point = record { from = 10; cents = 100 }

abbrev later_points : List PricePoint
later_points = record { from = 20; cents = 130 } ∷ record { from = 40; cents = 90 } ∷ []

price_at-last_price_example :
    price_at 25 (first_point ∷ later_points) ≡ some (last_price 25 100 later_points)
price_at-last_price_example =
    price_at-last_price 25 first_point later_points
      (((omega arith), ((omega arith), tt)), (((omega arith), tt), (tt, tt)))

abbrev no_staff : Staff
no_staff = record { employees = []; account_execs = []; wh_managers = [] }

abbrev two_regions : List Region
two_regions = (codes "Europe", 1 ∷ 2 ∷ []) ∷ (codes "Asia", 3 ∷ []) ∷ []

build_employees-IsTree_example : IsTree 0 (build_employees two_regions no_staff).employees
build_employees-IsTree_example = build_employees-IsTree two_regions no_staff refl

slug_accents : slugify (codes "  Müller & Söhne, Paris! ") ≡ codes "muller-and-sohne-paris"
unfolding slugify
slug_accents = refl

slugify-IsSlug_example :
    (slugify (codes "Home & Garden") ≡ []) ⊎ IsSlug true (slugify (codes "Home & Garden"))
slugify-IsSlug_example = slugify-IsSlug (codes "Home & Garden")

abbrev exact : Float
exact = record {
  F = ℤ;
  of_int = λ i. i;
  mul = λ a b. a;
  div = λ a b. a;
  less = λ a b. false;
  round = λ a. a;
}

abbrev leaf : Text → CatDefs ℤ → CatDefs ℤ
leaf name = more_defs (cat_def name no_defs [] (pos 0) (pos 0) (pos 0) [])

-- Toys with two kinds of them, and Books.
abbrev two_trees : CatDefs ℤ
two_trees =
    more_defs
      (cat_def (codes "Toys") (leaf (codes "Dolls") (leaf (codes "Cars") no_defs)) [] (pos 0)
        (pos 0) (pos 0) [])
      (leaf (codes "Books") no_defs)

abbrev toys : List Text
toys = codes "Toys" ∷ []

build_categories-Under_example :
    (let cs = (build_categories exact (λ i. []) two_trees).categories in
      (has (descend 0 cs (wanted toys 0 cs)) 2 ≡ true) ↔ Under toys cs 2)
build_categories-Under_example = build_categories-Under exact (λ i. []) two_trees toys 2

cars_found :
    (let cs = (build_categories exact (λ i. []) two_trees).categories in
      has (descend 0 cs (wanted toys 0 cs)) 2 ≡ true)
unfolding build_categories walk append category_of wanted descend equal
cars_found = refl

price_rows-AreHistories_example :
    (let rows = all_rows length price_row_of 0 (later_points ∷ [] ∷ later_points ∷ []) in
      (copy_iter length price_row_of
          (suc (length rows))
          (record { group = 0; left = later_points ∷ [] ∷ later_points ∷ []; item = 0 })
        ≡ some rows)
      × AreHistories 0 (later_points ∷ [] ∷ later_points ∷ []))
price_rows-AreHistories_example = price_rows-AreHistories (later_points ∷ [] ∷ later_points ∷ [])

copy_rows-AreUnique_example :
    Reads {O = Unit {0}} (supplier_rows 9 4 0 []) (AreUnique (λ r. r.supplier) (λ r. r.product))
    × Reads {O = Unit {0}}
        (stock_rows_of 80 3 (true ∷ true ∷ []) 0 [])
        (AreUnique (λ r. r.warehouse) (λ r. r.product))
copy_rows-AreUnique_example = copy_rows-AreUnique 9 4 80 3 (true ∷ true ∷ [])

build_customers-Consistent_example :
    Reads {O = Unit {0}}
      (build_customers 5 (λ c. 7 ∷ []) 1000 ((4 ∷ 90 ∷ []) ∷ (8 ∷ []) ∷ []))
      (Consistent 1000 3)
build_customers-Consistent_example =
    build_customers-Consistent 5 (λ c. 7 ∷ []) 1000 ((4 ∷ 90 ∷ []) ∷ (8 ∷ []) ∷ [])
      (((omega arith), ((omega arith), tt)), (((omega arith), tt), tt))
