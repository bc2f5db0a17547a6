-- ===== src/Seed/Loads/Unique.antt =====
-- internal/seed/seed.go: no product has a warehouse, or a supplier, in two rows.
use duckstore.Prelude.{
  ℕ, zero, suc, ◌+◌, ◌≤◌, ◌≡◌, refl, ap, ◌∙◌, subst, Bool, true, false, ◌&&◌, ◌||◌, List, [], ◌∷◌,
  arith, All, ◌==◌,
}
use duckstore.Seed.Emit.Reads.{
  Reads, Any, then_reads, pure_reads, int_reads, any_int_reads, coin_reads, if_reads, weaken_reads,
}
use duckstore.Seed.Emit.{Emit}
use duckstore.Seed.Loads.{
  draw_new, SupplierRow, supplier_row, supplier_rows, StockRow, stock_row, stock_rows_of,
}
use duckstore.Seed.Orders.Checks.Items.{All-imp}
use duckstore.Seed.Orders.{has}

-- A key of two columns, of which the second is the product.
module _ {R : Type 0} (one product : R → ℕ) where
  abbrev pub is_in : List R → ℕ → ℕ → Bool
  is_in [] x y = false
  is_in (r ∷ rs) x y = (one r == x && product r == y) || is_in rs x y

  -- It is a primary key.
  abbrev pub AreUnique : List R → Type 0
  AreUnique [] = Unit {0}
  AreUnique (r ∷ rs) = (is_in rs (one r) (product r) ≡ false) × AreUnique rs

  -- The rows of the first `i` products, whose ids are at most `i`.
  abbrev pub UpTo : ℕ → List R → Type 0
  UpTo i rows = AreUnique rows × All (λ r. product r ≤ i) rows

  -- What was drawn for the product is in `seen`.
  abbrev Noted : ℕ → List ℕ → List R → Type 0
  Noted i seen rows = (s : ℕ) → is_in rows (s + 1) (i + 1) ≡ true → has seen s ≡ true

  is_in-later :
      (i x : ℕ) (rows : List R) → All (λ r. product r ≤ i) rows → is_in rows x (i + 1) ≡ false
  is_in-later i x [] h = refl
  is_in-later i x (r ∷ rows) h =
      neither (one r == x) (product r) i (is_in rows x (i + 1)) h.0 (is_in-later i x rows h.1)
    where
      neither : (a : Bool) (p n : ℕ) (b : Bool) → p ≤ n → b ≡ false → (a && p == n + 1 || b) ≡ false
      neither a p n b le e = ground arith

  -- A product that comes next has drawn nothing.
  next_product : (i : ℕ) (rows : List R) → UpTo i rows → UpTo (i + 1) rows × Noted i [] rows
  next_product i rows h = (
    (h.0, All-imp _ _ rows (λ r le. omega arith) h.1),
    λ s e. absurd (let no_row = is_in-later i (s + 1) rows h.1 in cc),
  )

  drawn_before :
      (i s : ℕ) (seen : List ℕ) (rows : List R)
      → Noted i seen rows
      → has seen s ≡ false
      → is_in rows (s + 1) (i + 1) ≡ false
  drawn_before i s seen rows noted new =
      denied (is_in rows (s + 1) (i + 1)) (has seen s) (noted s) new
    where
      denied : (a b : Bool) → (a ≡ true → b ≡ true) → b ≡ false → a ≡ false
      denied true b f e = absurd (let t = f refl in cc)
      denied false b f e = refl

  Noted-add :
      (i s : ℕ) (seen : List ℕ) (rows : List R) (r : R)
      → one r ≡ s + 1
      → Noted i seen rows
      → Noted i (s ∷ seen) (r ∷ rows)
  Noted-add i s seen rows r drawn noted s' h =
      add (one r) s s' (product r == i + 1) (is_in rows (s' + 1) (i + 1)) (has seen s') drawn h
        (noted s')
    where
      add :
          (a s s' : ℕ) (p old known : Bool)
          → a ≡ s + 1
          → ((a == s' + 1 && p) || old) ≡ true
          → (old ≡ true → known ≡ true)
          → (s == s' || known) ≡ true
      add a s s' p true known e h f = later (s == s') known (f refl)
        where
          later : (a b : Bool) → b ≡ true → (a || b) ≡ true
          later a b h = ground arith
      add a s s' p false known e h f = same a s s' p known e h
        where
          same :
              (a s s' : ℕ) (p known : Bool)
              → a ≡ s + 1
              → ((a == s' + 1 && p) || false) ≡ true
              → (s == s' || known) ≡ true
          same a s s' p known e h = ground arith

  module _ {O : Type 0} (m i : ℕ) (row : ℕ → ℕ → Emit O R)
      (made : (s k : ℕ) → Reads (row s k) (λ r. (one r ≡ s + 1) × (product r ≡ i + 1))) where
    draw_new-UpTo :
        (n k : ℕ) (seen : List ℕ) (rows : List R)
        → UpTo (i + 1) rows
        → Noted i seen rows
        → Reads (draw_new m row n k seen rows) (UpTo (i + 1))
    unfolding draw_new
    draw_new-UpTo zero k seen rows h noted = pure_reads rows h
    draw_new-UpTo (suc n) k seen rows h noted = then_reads (int_reads m) (λ s u.
        if_reads (has seen s) (λ old. draw_new-UpTo n (k + 1) seen rows h noted)
          (λ new. then_reads (made s k) (λ r e.
            draw_new-UpTo n (k + 1) (s ∷ seen) (r ∷ rows)
              (
                (
                  ap (λ x. is_in rows x (product r)) e.0
                      ∙ ap (is_in rows (s + 1)) e.1
                      ∙ drawn_before i s seen rows noted new,
                  h.0,
                ),
                (omega (arith, e.1), h.1),
              )
              (Noted-add i s seen rows r e.0 noted))))

    product-UpTo :
        (n : ℕ) (rows : List R) → UpTo i rows → Reads (draw_new m row n 0 [] rows) (UpTo (i + 1))
    product-UpTo n rows h = let p = next_product i rows h in draw_new-UpTo n 0 [] rows p.0 p.1

module _ {O : Type 0} where
  supplier_row-made :
      (i s k : ℕ)
      → Reads {O = O} (supplier_row i s k) (λ r. (r.supplier ≡ s + 1) × (r.product ≡ i + 1))
  unfolding supplier_row
  supplier_row-made i s k =
      then_reads any_int_reads
        (λ cost u. then_reads (int_reads 43) (λ days u. pure_reads _ (refl, refl)))

  suppliers-UpTo :
      (m n i : ℕ) (rows : List SupplierRow)
      → UpTo (λ r. r.supplier) (λ r. r.product) i rows
      → Reads {O = O} (supplier_rows m n i rows) (UpTo (λ r. r.supplier) (λ r. r.product) (i + n))
  unfolding supplier_rows
  suppliers-UpTo m zero i rows h =
      pure_reads rows (subst (λ j. UpTo (λ r. r.supplier) (λ r. r.product) j rows) (omega arith) h)
  suppliers-UpTo m (suc n) i rows h = then_reads (int_reads 3) (λ more u.
      then_reads
        (product-UpTo (λ r. r.supplier) (λ r. r.product) m i (supplier_row i) (supplier_row-made i)
          (1 + more) rows h)
        (λ rows' h'.
          weaken_reads
            (λ all a. subst (λ j. UpTo (λ r. r.supplier) (λ r. r.product) j all) (omega arith) a)
            (suppliers-UpTo m n (i + 1) rows' h')))

  stock_row-made :
      (end : ℕ) (popular : Bool) (i w k : ℕ)
      → Reads {O = O}
          (stock_row end popular i w k)
          (λ r. (r.warehouse ≡ w + 1) × (r.product ≡ i + 1))
  unfolding stock_row
  stock_row-made end popular i w k = then_reads (int_reads 200) (λ few u.
      then_reads {F = Any}
        (if_reads popular (λ e. then_reads (int_reads 750) (λ q u. pure_reads _ tt))
          (λ e. pure_reads few tt))
        (λ qty u.
          then_reads coin_reads
            (λ is_out u. then_reads (int_reads 46) (λ reorder u. pure_reads _ (refl, refl)))))

  stock-UpTo :
      (end m : ℕ) (products : List Bool) (i : ℕ) (rows : List StockRow)
      → UpTo (λ r. r.warehouse) (λ r. r.product) i rows
      → Reads {O = O}
          (stock_rows_of end m products i rows)
          (AreUnique (λ r. r.warehouse) (λ r. r.product))
  unfolding stock_rows_of
  stock-UpTo end m [] i rows h = pure_reads rows h.0
  stock-UpTo end m (popular ∷ products) i rows h = then_reads (int_reads 3) (λ more u.
      then_reads
        (product-UpTo (λ r. r.warehouse) (λ r. r.product) m i (stock_row end popular i)
          (stock_row-made end popular i) (2 + more) rows h)
        (λ rows' h'. stock-UpTo end m products (i + 1) rows' h'))

  -- Whatever the random numbers are, product_suppliers and inventory get no two rows with the same
  -- product and the same supplier or warehouse: what the primary keys of the tables want.
  pub copy_rows-AreUnique :
      (suppliers n end warehouses : ℕ) (products : List Bool)
      → Reads {O = O}
          (supplier_rows suppliers n 0 [])
          (AreUnique (λ r. r.supplier) (λ r. r.product))
        × Reads {O = O}
            (stock_rows_of end warehouses products 0 [])
            (AreUnique (λ r. r.warehouse) (λ r. r.product))
  copy_rows-AreUnique suppliers n end warehouses products = (
    weaken_reads (λ rows h. h.0) (suppliers-UpTo suppliers n 0 [] (tt, tt)),
    stock-UpTo end warehouses products 0 [] (tt, tt),
  )
