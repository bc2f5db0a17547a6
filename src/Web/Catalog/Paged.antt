-- ===== src/Web/Catalog/Paged.antt =====
-- internal/web/store.go: the pages of a category show its products, each once and in order.
use duckstore.Prelude.{
  ℕ, zero, suc, ◌+◌, ◌-◌, ◌*◌, ◌≤◌, ◌≡◌, refl, sym, ap, ◌∙◌, subst, List, [], ◌∷◌, ◌++◌, arith,
  length, take, drop, take-append-drop,
}
use duckstore.Web.Catalog.{page_size, total_of, pages_of, page_rows, category_page}

module _ {A : Type 0} where
  drop_all : (k : ℕ) (xs : List A) → length xs ≤ k → drop k xs ≡ []
  drop_all zero [] h = refl
  drop_all zero (x ∷ xs) h = absurd (omega arith)
  drop_all (suc k) [] h = refl
  drop_all (suc k) (x ∷ xs) h = drop_all k xs (omega arith)

  drop-drop : (k b m : ℕ) (xs : List A) → m ≡ k + b → drop b (drop k xs) ≡ drop m xs
  drop-drop zero b m xs e = ap (λ n. drop n xs) (omega arith)
  drop-drop (suc k) b zero xs e = absurd (omega arith)
  drop-drop (suc k) b (suc m) [] e = drop_none b
    where
      drop_none : (n : ℕ) → drop {A = A} n [] ≡ []
      drop_none zero = refl
      drop_none (suc n) = refl
  drop-drop (suc k) b (suc m) (x ∷ xs) e = drop-drop k b m xs (omega arith)

  -- The products of the `n` pages from `page` on.
  abbrev pub pages_from : ℕ → ℕ → List A → List A
  pages_from zero page xs = []
  pages_from (suc n) page xs = (category_page page xs).products ++ pages_from n (page + 1) xs

  pages_from-drop :
      (n page : ℕ) (xs : List A)
      → 1 ≤ page
      → length xs ≤ (page - 1) * page_size + n * page_size
      → pages_from n page xs ≡ drop ((page - 1) * page_size) xs
  unfolding category_page
  pages_from-drop zero page xs first h = sym (drop_all ((page - 1) * page_size) xs (omega arith))
  pages_from-drop (suc n) page xs first h =
      ap (λ ys. page_rows page xs ++ ys)
        (pages_from-drop n (page + 1) xs (omega arith) (omega arith)
          ∙ sym (
              drop-drop ((page - 1) * page_size) page_size ((page + 1 - 1) * page_size) xs
                (omega arith)))
      ∙ take-append-drop page_size (drop ((page - 1) * page_size) xs)

  first_page-pages : (xs : List A) → pages_of (length xs) ≡ (category_page 1 xs).pages
  unfolding category_page
  first_page-pages [] = refl
  first_page-pages (x ∷ xs) = refl

  -- The pages from the first to the last one that the first page of a category tells show all its
  -- products, each once and in their order.
  pub pages_from-all : (xs : List A) → pages_from (category_page 1 xs).pages 1 xs ≡ xs
  pages_from-all xs =
      pages_from-drop (category_page 1 xs).pages 1 xs (omega arith)
        (subst (λ n. length xs ≤ n) (pages_enough xs) (covered (length xs)))
    where
      covered : (n : ℕ) → n ≤ 0 + pages_of n * page_size
      covered n = omega arith

      pages_enough :
          (xs : List A)
          → 0 + pages_of (length xs) * page_size
            ≡ (1 - 1) * page_size + (category_page 1 xs).pages * page_size
      pages_enough xs = ap (λ n. 0 + n * page_size) (first_page-pages xs)

  -- A page behind the last one tells of no products and no pages, since `count(*)` stands in its rows.
  past_end-total :
      (page : ℕ) (xs : List A)
      → length xs ≤ (page - 1) * page_size
      → (category_page page xs).total ≡ 0
  unfolding category_page
  past_end-total page xs h =
      ap (λ ys. total_of (take page_size ys) (length xs)) (drop_all ((page - 1) * page_size) xs h)
