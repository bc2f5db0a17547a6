-- ===== src/Seed/Emit/Reads.antt =====
-- internal/seed/orders.go: the parts of the generator that draw random numbers and write no row.
use duckstore.Prelude.{
  ℕ, zero, suc, [], ◌∷◌, ◌⊎◌, inl, inr, ◌%◌, ◌<◌, ◌≡◌, refl, sym, subst, Bool, true, false, List,
  Option, none, some, arith, get_elem?, length, if_ind, if◌then◌else◌,
}
use duckstore.Seed.Emit.{
  Emitting, Emit, head_or, ◌>>=◌, pure, stop, must, int_n, any_int, coin, normal, pick,
}
use duckstore.Seed.Emit.Triple.{Triple, After, bind}

abbrev pub Holds : {A : Type 0} → (A → Type 0) → Option A → Type 0
Holds F none = Unit {0}
Holds F (some a) = F a

-- `F` holds of what it gives, and the output stays.
pub record Reads {O A : Type 0} (m : Emit O A) (F : A → Type 0) : Type 0 where
  pub run : (s : Emitting O) → Holds F (m s).0 × ((m s).1.out ≡ s.out)

-- The value is one of the list's.
abbrev pub IsIn : {A : Type 0} → List A → A → Type 0
IsIn [] a = ⊥
IsIn (x ∷ xs) a = (x ≡ a) ⊎ IsIn xs a

get_elem?-IsIn : {A : Type 0} (l : List A) (i : ℕ) (a : A) → get_elem? l i ≡ some a → IsIn l a
get_elem?-IsIn [] i a e = absurd cc
get_elem?-IsIn (x ∷ l) zero a e = inl cc
get_elem?-IsIn (x ∷ l) (suc i) a e = inr (get_elem?-IsIn l i a e)

-- Nothing is said of what it gives.
abbrev pub Any : {A : Type 0} → A → Type 0
Any a = Unit {0}

pub reads :
    {O A : Type 0} {E : O → Type 0} {P : O → Type 0} {m : Emit O A} {F : A → Type 0}
    → ((o : O) → P o → E o)
    → Reads m F
    → Triple E P m (λ a o. F a × P o)
reads {O} {A} {E} {P} {m} {F} h r = record {
  run = λ s p. go (m s).0 (m s).1.out s.out (r.run s).0 (r.run s).1 p;
}
  where
    go : (a : Option A) (o o' : O) → Holds F a → o ≡ o' → P o' → After E (λ a o. F a × P o) a o
    go none o o' f e p = h o (subst P (sym e) p)
    go (some a) o o' f e p = (f, subst P (sym e) p)

-- What follows a part that writes nothing may use what holds of its result.
pub draws :
    {O A B : Type 0} {E : O → Type 0} {P : O → Type 0} {m : Emit O A} {F : A → Type 0}
    {f : A → Emit O B} {Q : B → O → Type 0}
    → ((o : O) → P o → E o)
    → Reads m F
    → ((a : A) → F a → Triple E P (f a) Q)
    → Triple E P (m >>= f) Q
draws {E = E} h r k = bind E (reads h r) (λ a. record { run = λ s p. (k a p.0).run s p.1 })

module _ {O : Type 0} where
  pub weaken_reads :
      {A : Type 0} {m : Emit O A} {F G : A → Type 0} → ((a : A) → F a → G a) → Reads m F → Reads m G
  weaken_reads {A} {m} {F} {G} h r = record { run = λ s. (go (m s).0 (r.run s).0, (r.run s).1) }
    where
      go : (a : Option A) → Holds F a → Holds G a
      go none f = tt
      go (some a) f = h a f

  pub then_reads :
      {A B : Type 0} {m : Emit O A} {F : A → Type 0} {k : A → Emit O B} {G : B → Type 0}
      → Reads m F
      → ((a : A) → F a → Reads (k a) G)
      → Reads (m >>= k) G
  unfolding ◌>>=◌
  then_reads {A} {B} {m} {F} {k} {G} t h = record {
    run = λ s. go (m s).0 (m s).1 s.out (t.run s).0 (t.run s).1;
  }
    where
      go :
          (r : Option A) (s' : Emitting O) (o : O)
          → Holds F r
          → s'.out ≡ o
          → (let p : Option B × Emitting O = elim r [ none ↦ (none, s') | some a ↦ k a s' ] in
              Holds G p.0 × (p.1.out ≡ o))
      go none s' o f e = (tt, e)
      go (some a) s' o f e =
          (((h a f).run s').0, subst (λ x. (k a s').1.out ≡ x) e ((h a f).run s').1)

  pub pure_reads : {A : Type 0} {F : A → Type 0} (a : A) → F a → Reads {O = O} (pure a) F
  unfolding pure
  pure_reads a f = record { run = λ s. (f, refl) }

  pub stop_reads : {A : Type 0} {F : A → Type 0} → Reads {O = O} {A = A} stop F
  unfolding stop
  stop_reads = record { run = λ s. (tt, refl) }

  pub must_reads : {A : Type 0} (r : Option A) → Reads {O = O} (must r) (λ a. r ≡ some a)
  must_reads none = stop_reads
  must_reads (some a) = pure_reads a refl

  pub int_reads : (n : ℕ) → Reads {O = O} (int_n n) (λ k. 0 < n → k < n)
  unfolding int_n
  int_reads n = record { run = λ s. (below (head_or 0 s.ints) n, refl) }
    where
      below : (a n : ℕ) → 0 < n → a % n < n
      below a n h = omega arith

  pub any_int_reads : Reads {O = O} any_int Any
  unfolding any_int
  any_int_reads = record { run = λ s. (tt, refl) }

  pub coin_reads : Reads {O = O} coin Any
  unfolding coin
  coin_reads = record { run = λ s. (tt, refl) }

  pub normal_reads : Reads {O = O} normal Any
  unfolding normal
  normal_reads = then_reads any_int_reads (λ n u. pure_reads _ tt)

  pub pick_reads : {A : Type 0} (l : List A) → Reads {O = O} (pick l) Any
  unfolding pick
  pick_reads l =
      then_reads (int_reads (length l))
        (λ i u. weaken_reads (λ a h. tt) (must_reads (get_elem? l i)))

  pub pick_member : {A : Type 0} (l : List A) → Reads {O = O} (pick l) (IsIn l)
  unfolding pick
  pick_member l =
      then_reads (int_reads (length l))
        (λ i u. weaken_reads (λ a e. get_elem?-IsIn l i a e) (must_reads (get_elem? l i)))

  pub both_reads :
      {A : Type 0} {m : Emit O A} {F G : A → Type 0}
      → Reads m F
      → Reads m G
      → Reads m (λ a. F a × G a)
  both_reads {A} {m} {F} {G} r t = record {
    run = λ s. (go (m s).0 (r.run s).0 (t.run s).0, (r.run s).1);
  }
    where
      go : (a : Option A) → Holds F a → Holds G a → Holds (λ x. F x × G x) a
      go none f h = tt
      go (some a) f h = (f, h)

  pub if_reads :
      {A : Type 0} {F : A → Type 0} (b : Bool) {m k : Emit O A}
      → (b ≡ true → Reads m F)
      → (b ≡ false → Reads k F)
      → Reads (if b then m else k) F
  if_reads {F = F} b h k = if_ind (λ m. Reads m F) b h k
