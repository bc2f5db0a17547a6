-- ===== src/Seed/Emit/Triple.antt =====
-- internal/seed/orders.go: reasoning on a part of the generator by what holds of the output before
-- it and after it. `E` holds of the output wherever it stops.
use duckstore.Prelude.{
  ℕ, ◌%◌, ◌<◌, ◌≡◌, refl, Bool, true, false, Option, none, some, arith, if_ind, if◌then◌else◌,
}
use duckstore.Seed.Emit.{
  Emitting, Emit, head_or, rest, ◌>>=◌, pure, stop, must, int_n, any_int, coin, add_row,
}

module _ {O : Type 0} (E : O → Type 0) where
  abbrev pub After : {A : Type 0} → (A → O → Type 0) → Option A → O → Type 0
  After Q none o = E o
  After Q (some a) o = Q a o

  pub record Triple {A : Type 0} (P : O → Type 0) (m : Emit O A) (Q : A → O → Type 0) : Type 0 where
    pub run : (s : Emitting O) → P s.out → After Q (m s).0 (m s).1.out

  pub bind :
      {A B : Type 0} {P : O → Type 0} {m : Emit O A} {Q : A → O → Type 0} {f : A → Emit O B}
      {R : B → O → Type 0}
      → Triple P m Q
      → ((a : A) → Triple (Q a) (f a) R)
      → Triple P (m >>= f) R
  unfolding ◌>>=◌
  bind {A} {B} {P} {m} {Q} {f} {R} t k = record { run = λ s p. go (m s).0 (m s).1 (t.run s p) }
    where
      go :
          (r : Option A) (s' : Emitting O)
          → After Q r s'.out
          → (let p : Option B × Emitting O = elim r [ none ↦ (none, s') | some a ↦ f a s' ] in
              After R p.0 p.1.out)
      go none s' h = h
      go (some a) s' h = (k a).run s' h

  pub returns :
      {A : Type 0} {P : O → Type 0} {Q : A → O → Type 0} (a : A)
      → ((o : O) → P o → Q a o)
      → Triple P (pure a) Q
  unfolding pure
  returns a h = record { run = λ s p. h s.out p }

  pub stops :
      {A : Type 0} {P : O → Type 0} {Q : A → O → Type 0}
      → ((o : O) → P o → E o)
      → Triple P (stop {A = A}) Q
  unfolding stop
  stops h = record { run = λ s p. h s.out p }

  pub musts :
      {A : Type 0} {P : O → Type 0} (r : Option A)
      → ((o : O) → P o → E o)
      → Triple P (must r) (λ a o. (r ≡ some a) × P o)
  musts none h = stops h
  musts (some a) h = returns a (λ o p. (refl, p))

  pub ints : {P : O → Type 0} (n : ℕ) → Triple P (int_n n) (λ k o. (0 < n → k < n) × P o)
  unfolding int_n
  ints n = record { run = λ s p. (below (head_or 0 s.ints) n, p) }
    where
      below : (a n : ℕ) → 0 < n → a % n < n
      below a n h = omega arith

  pub any_ints : {P : O → Type 0} → Triple P any_int (λ k o. P o)
  unfolding any_int
  any_ints = record { run = λ s p. p }

  pub coins : {P : O → Type 0} → Triple P coin (λ b o. P o)
  unfolding coin
  coins = record { run = λ s p. p }

  pub adds :
      {P Q : O → Type 0} (refused added : O → O)
      → ((o : O) → P o → E (refused o))
      → ((o : O) → P o → Q (added o))
      → Triple P (add_row refused added) (λ _ o. Q o)
  unfolding add_row
  adds {P} {Q} refused added h k = record { run = λ s p. go s p (head_or false s.faults) }
    where
      go :
          (s : Emitting O)
          → P s.out
          → (b : Bool)
          → (let p : Option (Unit {0}) × Emitting O =
                if b
                then (none, record s { faults = rest s.faults; out = refused s.out })
                else (some tt, record s { faults = rest s.faults; out = added s.out }) in
              After (λ (_ : Unit {0}) o. Q o) p.0 p.1.out)
      go s p true = h s.out p
      go s p false = k s.out p

  pub branches :
      {A : Type 0} {P : O → Type 0} {Q : A → O → Type 0} (b : Bool) {m k : Emit O A}
      → (b ≡ true → Triple P m Q)
      → (b ≡ false → Triple P k Q)
      → Triple P (if b then m else k) Q
  branches {P = P} {Q = Q} b h k = if_ind (λ m. Triple P m Q) b h k

  pub weaken :
      {A : Type 0} {P P' : O → Type 0} {m : Emit O A} {Q : A → O → Type 0}
      → ((o : O) → P' o → P o)
      → Triple P m Q
      → Triple P' m Q
  weaken h t = record { run = λ s p. t.run s (h s.out p) }

  pub strengthen :
      {A : Type 0} {P : O → Type 0} {m : Emit O A} {Q Q' : A → O → Type 0}
      → ((a : A) (o : O) → Q a o → Q' a o)
      → Triple P m Q
      → Triple P m Q'
  strengthen {A} {P} {m} {Q} {Q'} h t = record { run = λ s p. go (m s).0 (m s).1.out (t.run s p) }
    where
      go : (r : Option A) (o : O) → After Q r o → After Q' r o
      go none o q = q
      go (some a) o q = h a o q
