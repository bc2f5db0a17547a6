-- ===== src/Seed/Categories/Under.antt =====
-- internal/seed/generator.go: one pass over the categories finds all that stand below the wanted ones.
use duckstore.Prelude.{
  ℕ, zero, suc, ◌+◌, ◌-◌, ◌≤◌, ◌<◌, ◌≡◌, refl, sym, ap, ◌∙◌, subst, Bool, true, false, not, ◌&&◌,
  ◌||◌, List, [], ◌∷◌, Option, some, none, arith, get_elem?, ◌==◌, inl, inr, Bool-cases,
  if◌then◌else◌, if_ind, ◌↔◌,
}
use duckstore.Prelude.Text.{Text}
use duckstore.Seed.Categories.{Category, named, parent_wanted, wanted, descend}
use duckstore.Seed.Orders.{has}

-- The category at an index has a wanted name, or its parent is one of these.
pub data Under {F : Type 0} (names : List Text) (cs : List (Category F)) : ℕ → Type 0 where
  wanted_name :
      (i : ℕ) (c : Category F)
      → get_elem? cs i ≡ some c
      → named c.name names ≡ true
      → Under names cs i
  below_one :
      (i j : ℕ) (c : Category F)
      → get_elem? cs i ≡ some c
      → c.parent ≡ j + 1
      → Under names cs j
      → Under names cs i

-- Parents come first, from the index `k` on.
abbrev pub ParentsFirst : {F : Type 0} → ℕ → List (Category F) → Type 0
ParentsFirst k [] = Unit {0}
ParentsFirst k (c ∷ cs) = (c.parent ≤ k) × ParentsFirst (k + 1) cs

has_cons : (x i : ℕ) (w : List ℕ) → has w i ≡ true → has (x ∷ w) i ≡ true
has_cons x i w h = ground arith

has_other : (x i : ℕ) (w : List ℕ) → i < x → has (x ∷ w) i ≡ has w i
has_other x i w h = ap (λ b. b || has w i) (differ x i h)
  where
    differ : (x i : ℕ) → i < x → (x == i) ≡ false
    differ x i h = ground arith

has_self : (i : ℕ) (w : List ℕ) → has (i ∷ w) i ≡ true
has_self i w = ground arith

-- What holds of the first holds of all that are there.
has-cases :
    (P : ℕ → Type 0) (k i : ℕ) (w : List ℕ)
    → P k
    → (has w i ≡ true → P i)
    → has (k ∷ w) i ≡ true
    → P i
has-cases P k i w p q h = elim (Bool-cases (k == i)) [
  | inl e ↦ subst P (equal_of k i e) p
  | inr e ↦ q (rest_of (k == i) (has w i) e h)
]
  where
    equal_of : (a b : ℕ) → (a == b) ≡ true → a ≡ b
    equal_of a b h = ground arith

    rest_of : (a b : Bool) → a ≡ false → (a || b) ≡ true → b ≡ true
    rest_of a b e h = ground arith

parent_index :
    (p : ℕ) (w : List ℕ) → parent_wanted p w ≡ true → (p ≡ p - 1 + 1) × (has w (p - 1) ≡ true)
parent_index p w h = (at_least p (has w (p - 1)) h, second (not (p == 0)) _ h)
  where
    at_least : (p : ℕ) (b : Bool) → (not (p == 0) && b) ≡ true → p ≡ p - 1 + 1
    at_least p b h = ground arith

    second : (a b : Bool) → (a && b) ≡ true → b ≡ true
    second a b h = ground arith

module _ {F : Type 0} where
  -- One round of the pass.
  abbrev step : ℕ → Category F → List ℕ → List ℕ
  step i c want = if parent_wanted c.parent want then i ∷ want else want

  step-keeps :
      (k i : ℕ) (c : Category F) (want : List ℕ) → has want i ≡ true → has (step k c want) i ≡ true
  step-keeps k i c want h =
      if_ind (λ w. has w i ≡ true) (parent_wanted c.parent want) (λ e. has_cons k i want h) (λ e. h)

  step-before :
      (k i : ℕ) (c : Category F) (want : List ℕ) → i < k → has (step k c want) i ≡ has want i
  step-before k i c want lt =
      if_ind (λ w. has w i ≡ has want i) (parent_wanted c.parent want) (λ e. has_other k i want lt)
        (λ e. refl)

  descend-keeps :
      (k : ℕ) (cs : List (Category F)) (want : List ℕ) (i : ℕ)
      → has want i ≡ true
      → has (descend k cs want) i ≡ true
  unfolding descend
  descend-keeps k [] want i h = h
  descend-keeps k (c ∷ cs) want i h =
      descend-keeps (k + 1) cs (step k c want) i (step-keeps k i c want h)

  descend-before :
      (k : ℕ) (cs : List (Category F)) (want : List ℕ) (i : ℕ)
      → i < k
      → has (descend k cs want) i ≡ has want i
  unfolding descend
  descend-before k [] want i h = refl
  descend-before k (c ∷ cs) want i h =
      descend-before (k + 1) cs (step k c want) i (omega arith) ∙ step-before k i c want h

  abbrev parent_or : Option (Category F) → ℕ
  parent_or none = 0
  parent_or (some c) = c.parent

  -- Where the parent's index is wanted, so is the category's.
  step-child :
      (k j : ℕ) (d : Category F) (want : List ℕ)
      → d.parent ≡ j + 1
      → has want j ≡ true
      → has (step k d want) k ≡ true
  step-child k j d want p h =
      if_ind (λ w. has w k ≡ true) (parent_wanted d.parent want) (λ e. has_self k want)
        (λ e. absurd (let e' = is_wanted in cc))
    where
      is_positive_parent : (j : ℕ) → not (j + 1 == 0) ≡ true
      is_positive_parent j = ground arith

      one_less : (j : ℕ) → j + 1 - 1 ≡ j
      one_less j = omega arith

      is_wanted : parent_wanted d.parent want ≡ true
      is_wanted =
          ap (λ n. parent_wanted n want) p
          ∙ ap (λ b. b && has want (j + 1 - 1)) (is_positive_parent j)
          ∙ ap (has want) (one_less j)
          ∙ h

  -- A category whose parent is found is found, as the parent comes first.
  descend-child :
      (k : ℕ) (cs : List (Category F)) (want : List ℕ) (n j : ℕ) (c : Category F)
      → get_elem? cs n ≡ some c
      → c.parent ≡ j + 1
      → j < k + n
      → has (descend k cs want) j ≡ true
      → has (descend k cs want) (k + n) ≡ true
  unfolding descend
  descend-child k [] want n j c e p lt h = absurd cc
  descend-child k (d ∷ cs) want zero j c e p lt h =
      let parent = ap parent_or e ∙ p in
      let before =
        sym (
          descend-before (k + 1) cs (step k d want) j (omega arith)
          ∙ step-before k j d want (omega arith))
        ∙ h in
      descend-keeps (k + 1) cs (step k d want) (k + 0) (
        subst (λ i. has (step k d want) i ≡ true) (omega arith)
          (step-child k j d want parent before))
  descend-child k (d ∷ cs) want (suc n) j c e p lt h =
      subst (λ i. has (descend (k + 1) cs (step k d want)) i ≡ true) (omega arith)
        (descend-child (k + 1) cs (step k d want) n j c e p (omega arith) h)

  parent-before :
      (k : ℕ) (cs : List (Category F)) (n : ℕ) (c : Category F)
      → ParentsFirst k cs
      → get_elem? cs n ≡ some c
      → c.parent ≤ k + n
  parent-before k [] n c f e = absurd cc
  parent-before k (d ∷ cs) zero c f e =
      let same : d.parent ≡ c.parent = ap parent_or e in let le = f.0 in omega arith
  parent-before k (d ∷ cs) (suc n) c f e =
      let le = parent-before (k + 1) cs n c f.1 e in omega arith

  abbrev named_or : List Text → Option (Category F) → Bool
  named_or names none = false
  named_or names (some c) = named c.name names

  wanted-name :
      (names : List Text) (k : ℕ) (cs : List (Category F)) (n : ℕ) (c : Category F)
      → get_elem? cs n ≡ some c
      → named c.name names ≡ true
      → has (wanted names k cs) (k + n) ≡ true
  unfolding wanted
  wanted-name names k [] n c e w = absurd cc
  wanted-name names k (d ∷ cs) zero c e w =
      if_ind (λ w. has w (k + 0) ≡ true) (named d.name names)
        (λ t.
          subst (λ i. has (k ∷ wanted names (k + 1) cs) i ≡ true) (omega arith)
            (has_self k (wanted names (k + 1) cs)))
        (λ t. absurd (let same = ap (named_or names) e in cc))
  wanted-name names k (d ∷ cs) (suc n) c e w =
      let later =
        subst (λ i. has (wanted names (k + 1) cs) i ≡ true) (omega arith)
          (wanted-name names (k + 1) cs n c e w) in
      if_ind (λ w. has w (k + suc n) ≡ true) (named d.name names)
        (λ t. has_cons k (k + suc n) (wanted names (k + 1) cs) later) (λ t. later)

  descend_complete :
      (names : List Text) (cs : List (Category F))
      → ParentsFirst 0 cs
      → (i : ℕ) → Under names cs i
      → has (descend 0 cs (wanted names 0 cs)) i ≡ true
  descend_complete names cs f i (wanted_name _ c e w) =
      descend-keeps 0 cs (wanted names 0 cs) i (
        subst (λ n. has (wanted names 0 cs) n ≡ true) (omega arith)
          (wanted-name names 0 cs i c e w))
  descend_complete names cs f i (below_one _ j c e p u) =
      subst (λ n. has (descend 0 cs (wanted names 0 cs)) n ≡ true) (omega arith)
        (descend-child 0 cs (wanted names 0 cs) i j c e p
          (let le = parent-before 0 cs i c f e in omega arith) (descend_complete names cs f j u))

  -- `cs` stands in `all` from the index `k` on.
  abbrev IsSuffix : ℕ → List (Category F) → List (Category F) → Type 0
  IsSuffix k cs all =
      (n : ℕ) (c : Category F) → get_elem? cs n ≡ some c → get_elem? all (k + n) ≡ some c

  IsSuffix-next :
      (k : ℕ) (c : Category F) (cs all : List (Category F))
      → IsSuffix k (c ∷ cs) all
      → IsSuffix (k + 1) cs all
  IsSuffix-next k c cs all suffix n d e =
      subst (λ i. get_elem? all i ≡ some d) (omega arith) (suffix (suc n) d e)

  head_of :
      (k : ℕ) (c : Category F) (cs all : List (Category F))
      → IsSuffix k (c ∷ cs) all
      → get_elem? all k ≡ some c
  head_of k c cs all suffix = subst (λ i. get_elem? all i ≡ some c) (omega arith) (suffix 0 c refl)

  wanted_sound :
      (names : List Text) (all : List (Category F)) (k : ℕ) (cs : List (Category F))
      → IsSuffix k cs all
      → (i : ℕ) → has (wanted names k cs) i ≡ true
      → Under names all i
  unfolding wanted
  wanted_sound names all k [] suffix i = λ h. absurd cc
  wanted_sound names all k (c ∷ cs) suffix i =
      let later = wanted_sound names all (k + 1) cs (IsSuffix-next k c cs all suffix) i in
      if_ind (λ w. has w i ≡ true → Under names all i) (named c.name names)
        (λ t.
          has-cases (Under names all) k i (wanted names (k + 1) cs)
            (wanted_name k c (head_of k c cs all suffix) t) later)
        (λ t. later)

  descend_sound :
      (names : List Text) (all : List (Category F)) (k : ℕ) (cs : List (Category F)) (want : List ℕ)
      → IsSuffix k cs all
      → ((i : ℕ) → has want i ≡ true → Under names all i)
      → (i : ℕ) → has (descend k cs want) i ≡ true
      → Under names all i
  unfolding descend
  descend_sound names all k [] want suffix sound = sound
  descend_sound names all k (c ∷ cs) want suffix sound =
      descend_sound names all (k + 1) cs (step k c want) (IsSuffix-next k c cs all suffix) (λ i.
        if_ind (λ w. has w i ≡ true → Under names all i) (parent_wanted c.parent want)
          (λ t.
            let p = parent_index c.parent want t in
            has-cases (Under names all) k i want
              (below_one k (c.parent - 1) c (head_of k c cs all suffix) p.0
                (sound (c.parent - 1) p.1))
              (sound i))
          (λ t. sound i))

  -- Where parents come first, as buildCategories stores them, the one pass of productsUnder finds
  -- the categories with one of the names and all that stand below one of them, and no other.
  pub descend-Under :
      (names : List Text) (cs : List (Category F))
      → ParentsFirst 0 cs
      → (i : ℕ) → (has (descend 0 cs (wanted names 0 cs)) i ≡ true) ↔ Under names cs i
  descend-Under names cs f i = (
    descend_sound names cs 0 cs (wanted names 0 cs) whole (wanted_sound names cs 0 cs whole) i,
    descend_complete names cs f i,
  )
    where
      whole : IsSuffix 0 cs cs
      whole n c e = subst (λ i. get_elem? cs i ≡ some c) (omega arith) e
