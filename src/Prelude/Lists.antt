-- ===== src/Prelude/Lists.antt =====
-- Lists measured and indexed by native numbers, under the library's names.
use Prim.Native.Nat.{ℕ, zero, suc, ◌+◌, ◌-◌, ◌<◌, min}
use mathlib.Core.Path.{◌≡◌, refl, ap}
use mathlib.Core.List.{List, [], ◌∷◌, ◌++◌, reverse, reverse-append}
use mathlib.Core.Option.{Option, none, some}
use mathlib.Core.Logic.{◌⊎◌, inl, inr}
use native.Mathlib.Omega.{arith}

module _ {ℓ} {A : Type ℓ} where
  abbrev pub length : List A → ℕ
  length [] = 0
  length (x ∷ xs) = suc (length xs)

  abbrev pub get_elem? : List A → ℕ → Option A
  get_elem? [] i = none
  get_elem? (x ∷ xs) zero = some x
  get_elem? (x ∷ xs) (suc i) = get_elem? xs i

  pub length-append : (xs ys : List A) → length (xs ++ ys) ≡ length xs + length ys
  length-append [] ys = omega arith
  length-append (x ∷ xs) ys = omega (arith, length-append xs ys)

module _ {ℓ} {A : Type ℓ} where
  abbrev pub take : ℕ → List A → List A
  take zero xs = []
  take (suc n) [] = []
  take (suc n) (x ∷ xs) = x ∷ take n xs

  abbrev pub drop : ℕ → List A → List A
  drop zero xs = xs
  drop (suc n) [] = []
  drop (suc n) (x ∷ xs) = drop n xs

  abbrev pub replicate : ℕ → A → List A
  replicate zero a = []
  replicate (suc n) a = a ∷ replicate n a

  pub take-append-drop : (n : ℕ) (xs : List A) → take n xs ++ drop n xs ≡ xs
  take-append-drop zero xs = refl
  take-append-drop (suc n) [] = refl
  take-append-drop (suc n) (x ∷ xs) = rw (take-append-drop n xs)

  pub length-take : (n : ℕ) (xs : List A) → length (take n xs) ≡ min n (length xs)
  length-take zero xs = omega arith
  length-take (suc n) [] = omega arith
  length-take (suc n) (x ∷ xs) = omega (arith, length-take n xs)

  pub length-drop : (n : ℕ) (xs : List A) → length (drop n xs) ≡ length xs - n
  length-drop zero xs = omega arith
  length-drop (suc n) [] = omega arith
  length-drop (suc n) (x ∷ xs) = omega (arith, length-drop n xs)

module _ {ℓ} {A : Type ℓ} where
  -- What stands at an index stays there when a list grows.
  pub get_elem?-grows :
      (xs ys : List A) (n : ℕ) (x : A) → get_elem? xs n ≡ some x → get_elem? (xs ++ ys) n ≡ some x
  get_elem?-grows [] ys n x e = absurd cc
  get_elem?-grows (a ∷ xs) ys zero x e = e
  get_elem?-grows (a ∷ xs) ys (suc n) x e = get_elem?-grows xs ys n x e

  pub get_elem?-last : (xs : List A) (x : A) → get_elem? (xs ++ x ∷ []) (length xs) ≡ some x
  get_elem?-last [] x = refl
  get_elem?-last (a ∷ xs) x = get_elem?-last xs x

  pub get_elem?-snoc :
      (xs : List A) (y : A) (n : ℕ) (x : A)
      → get_elem? (xs ++ y ∷ []) n ≡ some x
      → (get_elem? xs n ≡ some x) ⊎ ((n ≡ length xs) × (y ≡ x))
  get_elem?-snoc [] y zero x e = inr (refl, cc)
  get_elem?-snoc [] y (suc n) x e = absurd cc
  get_elem?-snoc (a ∷ xs) y zero x e = inl e
  get_elem?-snoc (a ∷ xs) y (suc n) x e = elim (get_elem?-snoc xs y n x e) [
    | inl h ↦ inl h
    | inr (p, q) ↦ inr (ap suc p, q)
  ]

  pub get_elem?-below : (xs : List A) (n : ℕ) (x : A) → get_elem? xs n ≡ some x → n < length xs
  get_elem?-below [] n x e = absurd cc
  get_elem?-below (a ∷ xs) zero x e = omega arith
  get_elem?-below (a ∷ xs) (suc n) x e = let h = get_elem?-below xs n x e in omega arith

-- A predicate holds of every item.
abbrev pub All {ℓ κ} : {A : Type ℓ} → (A → Type κ) → List A → Type κ
All P [] = Unit
All P (x ∷ xs) = P x × All P xs

pub All-append {ℓ κ} :
    {A : Type ℓ} (P : A → Type κ) (xs ys : List A) → All P xs → All P ys → All P (xs ++ ys)
All-append P [] ys hx hy = hy
All-append P (x ∷ xs) ys hx hy = (hx.0, All-append P xs ys hx.1 hy)

module _ {ℓ} {A : Type ℓ} where
  pub take_whole : (xs ys : List A) → take (length xs) (xs ++ ys) ≡ xs
  take_whole [] ys = refl
  take_whole (x ∷ xs) ys = ap (λ t. x ∷ t) (take_whole xs ys)

  pub drop_whole : (xs ys : List A) → drop (length xs) (xs ++ ys) ≡ ys
  drop_whole [] ys = refl
  drop_whole (x ∷ xs) ys = drop_whole xs ys

pub All-reverse {ℓ κ} : {A : Type ℓ} (P : A → Type κ) (xs : List A) → All P xs → All P (reverse xs)
All-reverse P [] h = tt
All-reverse P (x ∷ xs) h =
    rw (reverse-append (x ∷ []) xs)
      (All-append P (reverse xs) (x ∷ []) (All-reverse P xs h.1) (h.0, tt))
