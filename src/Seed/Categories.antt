-- ===== src/Seed/Categories.antt =====
-- internal/seed/generator.go: `buildCategories`, and `productsUnder` of `buildPromotions`.
pub mod Forest
pub mod Under
use duckstore.Prelude.{
  ℕ, zero, suc, ◌+◌, ◌-◌, Bool, true, false, not, ◌&&◌, List, [], ◌∷◌, ◌++◌, length, ◌==◌,
  if◌then◌else◌,
}
use duckstore.Prelude.Int.{pos}
use duckstore.Prelude.Text.{Text, codes, equal}
use duckstore.Seed.Orders.{has}
use duckstore.Seed.Slug.{slugify}
use duckstore.Store.Float.{Float}

-- `catDef`; a list of them is a type of its own.
mutual
  pub data CatDef (F : Type 0) : Type 0 where
    cat_def :
        (name : Text) (children : CatDefs F) (nouns : List Text)
        (price_min price_max return_rate : F) (season : Text)
        → CatDef F

  pub data CatDefs (F : Type 0) : Type 0 where
    no_defs : CatDefs F
    more_defs : CatDef F → CatDefs F → CatDefs F

-- `category`; the profile of its season is kept as its name.
pub record Category (F : Type 0) : Type 0 where
  pub id : ℕ
  pub parent : ℕ
  pub name : Text
  pub slug : Text
  pub depth : ℕ
  pub top : ℕ
  pub nouns : List Text
  pub price_min : F
  pub price_max : F
  pub return_rate : F
  pub season : Text

-- The fields of `gen` that it fills.
pub record Tree (F : Type 0) : Type 0 where
  pub categories : List (Category F)
  pub leaf_idx : List ℕ
  pub leaf_weights : List ℕ

-- What a category takes from its parent: nothing at the top.
pub data Parent (F : Type 0) : Type 0 where
  no_parent : Parent F
  below : Category F → Parent F

module _ (fl : Float) where
  open fl use {F, of_int, less}

  abbrev pub is_positive : F → Bool
  is_positive x = less (of_int (pos 0)) x

  abbrev pub top_of : Parent F → ℕ → ℕ → ℕ
  top_of no_parent top i = i
  top_of (below c) top i = top

  -- `c` up to the three conditions.
  abbrev pub first_category : ℕ → Text → Parent F → ℕ → F → Text → List Text → Category F
  first_category id name no_parent top return_rate season nouns = record {
    id = id;
    parent = 0;
    name = name;
    slug = slugify name;
    depth = 0;
    top = top;
    nouns = nouns;
    price_min = of_int (pos 0);
    price_max = of_int (pos 0);
    return_rate = return_rate;
    season = season;
  }
  first_category id name (below p) top return_rate season nouns = record {
    id = id;
    parent = p.id;
    name = name;
    slug = slugify name;
    depth = p.depth + 1;
    top = top;
    nouns = nouns;
    price_min = p.price_min;
    price_max = p.price_max;
    return_rate = p.return_rate;
    season = p.season;
  }

  abbrev is_set : Text → Bool
  is_set [] = false
  is_set (_ ∷ _) = true

  -- What the definition itself says comes first.
  unfoldable pub category_of : ℕ → CatDef F → Parent F → ℕ → Category F
  category_of id (cat_def name children nouns price_min price_max return_rate season) parent top =
      let c = first_category id name parent top return_rate season nouns in
      record {
        id = c.id;
        parent = c.parent;
        name = c.name;
        slug = c.slug;
        depth = c.depth;
        top = c.top;
        nouns = c.nouns;
        price_min = if is_positive price_max then price_min else c.price_min;
        price_max = if is_positive price_max then price_max else c.price_max;
        return_rate = if is_positive return_rate then return_rate else c.return_rate;
        season = if is_set season then season else c.season;
      }

  -- `weight`, in halves.
  abbrev pub weight_of : Text → ℕ
  weight_of name =
      if equal name (codes "Books") then 5 else if equal name (codes "Fashion") then 4 else 2

  abbrev pub is_leaf : CatDefs F → Bool
  is_leaf no_defs = true
  is_leaf (more_defs _ _) = false

  -- The category is appended, and so is its index when it is a leaf.
  unfoldable pub append : (ℕ → Text) → Category F → CatDefs F → Tree F → Tree F
  append top_name c children s = record {
    categories = s.categories ++ c ∷ [];
    leaf_idx = if is_leaf children then s.leaf_idx ++ length s.categories ∷ [] else s.leaf_idx;
    leaf_weights =
        if is_leaf children
        then s.leaf_weights ++ weight_of (top_name c.top) ∷ []
        else s.leaf_weights;
  }

  unfoldable mutual
    -- `walk` from the index `i` on; `top_name` is the name in `categoryTree`.
    pub walk : (ℕ → Text) → CatDefs F → Parent F → ℕ → ℕ → Tree F → Tree F
    walk top_name no_defs above top i s = s
    walk top_name (more_defs d ds) above top i s =
        walk top_name ds above (top_of above top i) (i + 1)
          (walk_def top_name d above (top_of above top i) s)

    -- The body of its loop.
    pub walk_def : (ℕ → Text) → CatDef F → Parent F → ℕ → Tree F → Tree F
    walk_def top_name (cat_def name children nouns price_min price_max return_rate season) above top
          s =
        let c =
          category_of (length s.categories + 1)
            (cat_def name children nouns price_min price_max return_rate season) above top in
        walk top_name children (below c) top 0 (append top_name c children s)

  unfoldable pub build_categories : (ℕ → Text) → CatDefs F → Tree F
  unfolding walk
  build_categories top_name defs =
      walk top_name defs no_parent 0 0
        (record { categories = []; leaf_idx = []; leaf_weights = [] })

abbrev pub named : Text → List Text → Bool
named name [] = false
named name (n ∷ ns) = if equal name n then true else named name ns

abbrev pub parent_wanted : ℕ → List ℕ → Bool
parent_wanted parent want = not (parent == 0) && has want (parent - 1)

-- The loop over the products, by their categories.
unfoldable pub products_in : List ℕ → ℕ → List ℕ → List ℕ
products_in want i [] = []
products_in want i (cat ∷ cats) =
    let later = products_in want (i + 1) cats in if has want cat then i ∷ later else later

module _ {F : Type 0} where
  -- The loop over the names and the categories: `want` is the indices, from `i` on.
  unfoldable pub wanted : List Text → ℕ → List (Category F) → List ℕ
  wanted names i [] = []
  wanted names i (c ∷ cs) =
      let later = wanted names (i + 1) cs in if named c.name names then i ∷ later else later

  -- The one pass that adds the descendants.
  unfoldable pub descend : ℕ → List (Category F) → List ℕ → List ℕ
  descend i [] want = want
  descend i (c ∷ cs) want =
      descend (i + 1) cs (if parent_wanted c.parent want then i ∷ want else want)

  -- `productsUnder`
  unfoldable pub products_under : List (Category F) → List ℕ → List Text → List ℕ
  unfolding wanted descend products_in
  products_under cs cats names = products_in (descend 0 cs (wanted names 0 cs)) 0 cats
