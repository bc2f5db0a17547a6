-- ===== src/Seed/Categories/Forest.antt =====
-- internal/seed/generator.go: `buildCategories` makes a forest that is stored parents first.
use duckstore.Prelude.{
  ℕ, suc, ◌+◌, ◌≤◌, ◌<◌, ◌≡◌, refl, sym, ap, ◌∙◌, subst, true, List, [], ◌∷◌, ◌++◌, some, arith,
  get_elem?, length, get_elem?-grows, get_elem?-last, get_elem?-snoc, get_elem?-below, ◌⊎◌, inl,
  inr, ◌↔◌,
}
use duckstore.Prelude.Text.{Text}
use duckstore.Seed.Categories.{
  CatDef, CatDefs, cat_def, no_defs, more_defs, Category, Tree, Parent, no_parent, below, top_of,
  category_of, append, walk, walk_def, build_categories, descend, wanted,
}
use duckstore.Seed.Categories.Under.{ParentsFirst, Under, descend-Under}
use duckstore.Seed.Orders.{has}
use duckstore.Store.Float.{Float}

-- The parent of a category stands before it, has the same top and is one less deep.
pub record Below {F : Type 0} (cs : List (Category F)) (n : ℕ) (c : Category F) : Type 0 where
  pub place : ℕ
  pub above : Category F
  pub before : place < n
  pub there : get_elem? cs place ≡ some above
  pub parent : c.parent ≡ above.id
  pub depth : c.depth ≡ above.depth + 1
  pub top : c.top ≡ above.top

-- Each category stands at its id, and is at the top, with the depth 0, or below another one.
abbrev pub IsForest : {F : Type 0} → List (Category F) → Type 0
IsForest {F} cs =
    (n : ℕ) (c : Category F)
    → get_elem? cs n ≡ some c
    → (c.id ≡ n + 1) × (((c.parent ≡ 0) × (c.depth ≡ 0)) ⊎ Below cs n c)

module _ (fl : Float) where
  open fl use {F}

  Below-grows :
      (cs ds : List (Category F)) (n : ℕ) (c : Category F) → Below cs n c → Below (cs ++ ds) n c
  Below-grows cs ds n c b = record {
    place = b.place;
    above = b.above;
    before = b.before;
    there = get_elem?-grows cs ds b.place b.above b.there;
    parent = b.parent;
    depth = b.depth;
    top = b.top;
  }

  -- A category that fits is appended.
  IsForest-snoc :
      (cs : List (Category F)) (d : Category F)
      → IsForest cs
      → d.id ≡ length cs + 1
      → ((d.parent ≡ 0) × (d.depth ≡ 0)) ⊎ Below cs (length cs) d
      → IsForest (cs ++ d ∷ [])
  IsForest-snoc cs d f id fits n c e = elim (get_elem?-snoc cs d n c e) [
    | inl h ↦ (
      (f n c h).0,
      elim (f n c h).1 [ inl root ↦ inl root | inr b ↦ inr (Below-grows cs (d ∷ []) n c b) ],
    )
    | inr (last, same) ↦
        subst (λ c. (c.id ≡ n + 1) × (((c.parent ≡ 0) × (c.depth ≡ 0)) ⊎ Below (cs ++ d ∷ []) n c))
          same
          (
            id ∙ ap (λ i. i + 1) (sym last),
            elim fits [
              | inl root ↦ inl root
              | inr b ↦ inr (
                  subst (λ i. Below (cs ++ d ∷ []) i d) (sym last)
                    (Below-grows cs (d ∷ []) (length cs) d b))
            ],
          )
  ]

  -- The parent is one of the categories, and of the top that goes with it.
  abbrev IsThere : Parent F → ℕ → List (Category F) → Type 0
  IsThere no_parent top cs = Unit {0}
  IsThere (below p) top cs = (m : ℕ) × (get_elem? cs m ≡ some p) × (top ≡ p.top)

  abbrev Grows : List (Category F) → List (Category F) → Type 0
  Grows cs cs' = (n : ℕ) (c : Category F) → get_elem? cs n ≡ some c → get_elem? cs' n ≡ some c

  IsThere-Grows :
      (above : Parent F) (top : ℕ) (cs cs' : List (Category F))
      → Grows cs cs'
      → IsThere above top cs
      → IsThere above top cs'
  IsThere-Grows no_parent top cs cs' g h = tt
  IsThere-Grows (below p) top cs cs' g (m, h, same) = (m, g m p h, same)

  category_of-id :
      (id : ℕ) (d : CatDef F) (above : Parent F) (top : ℕ) → (category_of fl id d above top).id ≡ id
  unfolding category_of
  category_of-id id (cat_def _ _ _ _ _ _ _) no_parent top = refl
  category_of-id id (cat_def _ _ _ _ _ _ _) (below p) top = refl

  category_of-top :
      (id : ℕ) (d : CatDef F) (above : Parent F) (top : ℕ)
      → (category_of fl id d above top).top ≡ top
  unfolding category_of
  category_of-top id (cat_def _ _ _ _ _ _ _) no_parent top = refl
  category_of-top id (cat_def _ _ _ _ _ _ _) (below p) top = refl

  category_of-fits :
      (id : ℕ) (d : CatDef F) (above : Parent F) (top : ℕ) (cs : List (Category F))
      → IsThere above top cs
      → (let c = category_of fl id d above top in
          ((c.parent ≡ 0) × (c.depth ≡ 0)) ⊎ Below cs (length cs) c)
  unfolding category_of
  category_of-fits id (cat_def _ _ _ _ _ _ _) no_parent top cs h = inl (refl, refl)
  category_of-fits id (cat_def _ _ _ _ _ _ _) (below p) top cs (m, h, same) = inr (record {
    place = m;
    above = p;
    before = get_elem?-below cs m p h;
    there = h;
    parent = refl;
    depth = refl;
    top = same;
  })

  next_top :
      (above : Parent F) (top i : ℕ) (cs : List (Category F))
      → IsThere above top cs
      → IsThere above (top_of fl above top i) cs
  next_top no_parent top i cs h = tt
  next_top (below p) top i cs h = h

  -- The categories are a forest, and those of before stand where they stood.
  record Walked (before after : List (Category F)) : Type 0 where
    forest : IsForest after
    grows : Grows before after

  mutual
    unfolding walk walk_def append

    walk-Walked :
        (top_name : ℕ → Text) (ds : CatDefs F) (above : Parent F) (top i : ℕ) (s : Tree F)
        → IsForest s.categories
        → IsThere above top s.categories
        → Walked s.categories (walk fl top_name ds above top i s).categories
    walk-Walked top_name no_defs above top i s f h = record { forest = f; grows = λ n c e. e }
    walk-Walked top_name (more_defs d ds) above top i s f h =
        let there = next_top above top i s.categories h in
        let first = walk_def-Walked top_name d above (top_of fl above top i) s f there in
        let s' = walk_def fl top_name d above (top_of fl above top i) s in
        let later = walk-Walked top_name ds above (top_of fl above top i) (i + 1) s' first.forest (
          IsThere-Grows above (top_of fl above top i) s.categories s'.categories first.grows
            there) in
        record { forest = later.forest; grows = λ n c e. later.grows n c (first.grows n c e) }

    walk_def-Walked :
        (top_name : ℕ → Text) (d : CatDef F) (above : Parent F) (top : ℕ) (s : Tree F)
        → IsForest s.categories
        → IsThere above top s.categories
        → Walked s.categories (walk_def fl top_name d above top s).categories
    walk_def-Walked top_name (cat_def name children nouns price_min price_max return_rate season)
          above top s f h =
        let d = cat_def name children nouns price_min price_max return_rate season in
        let c = category_of fl (length s.categories + 1) d above top in
        let s' = append fl top_name c children s in
        let f' =
          IsForest-snoc s.categories c f (category_of-id (length s.categories + 1) d above top)
            (category_of-fits (length s.categories + 1) d above top s.categories h) in
        let later = walk-Walked top_name children (below c) top 0 s' f' (
          length s.categories,
          get_elem?-last s.categories c,
          sym (category_of-top (length s.categories + 1) d above top),
        ) in
        record {
          forest = later.forest;
          grows = λ n c' e. later.grows n c' (get_elem?-grows s.categories (c ∷ []) n c' e);
        }

  -- buildCategories stores each category at its id, behind its parent, which is one less deep and of
  -- the same top-level category; those at the top have the depth 0.
  pub build_categories-IsForest :
      (top_name : ℕ → Text) (ds : CatDefs F) → IsForest (build_categories fl top_name ds).categories
  unfolding build_categories
  build_categories-IsForest top_name ds =
      (walk-Walked top_name ds no_parent 0 0
        (record { categories = []; leaf_idx = []; leaf_weights = [] }) (λ n c e. absurd cc)
        tt).forest

parent-before :
    {F : Type 0} (all : List (Category F)) (k : ℕ) (c : Category F)
    → IsForest all
    → get_elem? all k ≡ some c
    → c.parent ≤ k
parent-before all k c f e = elim (f k c e).1 [
  | inl root ↦ let h = root.0 in omega arith
  | inr b ↦
      let id = (f b.place b.above b.there).0 in
      let same = b.parent in let lt = b.before in omega arith
]

IsForest-ParentsFirst :
    {F : Type 0} (k : ℕ) (all cs : List (Category F))
    → IsForest all
    → ((n : ℕ) (c : Category F) → get_elem? cs n ≡ some c → get_elem? all (k + n) ≡ some c)
    → ParentsFirst k cs
IsForest-ParentsFirst k all [] f h = tt
IsForest-ParentsFirst k all (c ∷ cs) f h = (
  parent-before all k c f (subst (λ i. get_elem? all i ≡ some c) (omega arith) (h 0 c refl)),
  IsForest-ParentsFirst (k + 1) all cs f
      (λ n d e. subst (λ i. get_elem? all i ≡ some d) (omega arith) (h (suc n) d e)),
)

module _ (fl : Float) where
  -- On the categories of buildCategories, the one pass of productsUnder finds the categories with
  -- one of the names and all that stand below one of them, however deep, and no other.
  pub build_categories-Under :
      (top_name : ℕ → Text) (ds : CatDefs (fl.F)) (names : List Text) (i : ℕ)
      → (let cs = (build_categories fl top_name ds).categories in
          (has (descend 0 cs (wanted names 0 cs)) i ≡ true) ↔ Under names cs i)
  build_categories-Under top_name ds names i =
      let cs = (build_categories fl top_name ds).categories in
      descend-Under names cs
        (IsForest-ParentsFirst 0 cs cs (build_categories-IsForest fl top_name ds)
          (λ n c e. subst (λ i. get_elem? cs i ≡ some c) (omega arith) e))
        i
