-- ===== src/Store/Tx/Laws.antt =====
-- What a statement, a sequence of statements and a transaction that succeeded have done.
use duckstore.Prelude.{
  ◌≡◌, refl, sym, ap, ◌∙◌, ◌⊎◌, inl, inr, Bool, true, false, Bool-cases, Option, none, some,
  if◌then◌else◌,
}
use duckstore.Store.Tables.{Db}
use duckstore.Store.Tx.{
  Error, violation, Result, ok, err, World, Tx, pure, ◌>>=◌, ◌>>◌, head_fault, fail_if, statement,
  query, query_or, row_or, exec, exec_check,
}

-- Only the rows and the faults to come differ.
pub record SameClock (w w' : World) : Type 0 where
  pub now : w'.now ≡ w.now
  pub next_cart : w'.next_cart ≡ w.next_cart
  pub next_order : w'.next_order ≡ w.next_order

pub bind-eq-ok :
    {A B : Type 0} (m : Tx A) (f : A → Tx B) (w : World) {b : B} {w' : World}
    → (m >>= f) w ≡ (ok b, w')
    → (a : A) × (w1 : World) × (m w ≡ (ok a, w1)) × (f a w1 ≡ (ok b, w'))
unfolding ◌>>=◌
bind-eq-ok {A} {B} m f w {b} {w'} h = go (m w).0 (m w).1 refl h
  where
    go :
        (r : Result A) (w1 : World)
        → m w ≡ (r, w1)
        → ◌≡◌ {A = Result B × World} (elim r [ ok a ↦ f a w1 | err e ↦ (err e, w1) ]) (ok b, w')
        → (a : A) × (w1 : World) × (m w ≡ (ok a, w1)) × (f a w1 ≡ (ok b, w'))
    go (ok a) w1 e h = (a, w1, e, h)
    go (err x) w1 e h = absurd cc

Result-cases : {A : Type 0} (r : Result A) → ((a : A) × (r ≡ ok a)) ⊎ ((e : Error) × (r ≡ err e))
Result-cases (ok a) = inl (a, refl)
Result-cases (err e) = inr (e, refl)

ok_or : {A : Type 0} → A → Result A → A
ok_or d (ok a) = a
ok_or d (err _) = d

pub Pair-eq : {A B : Type 0} (r : A × B) (a : A) (b : B) → r.0 ≡ a → r.1 ≡ b → r ≡ (a, b)
Pair-eq r a b p q = λ i. (p i, q i)

-- A statement that succeeded has made its change, and nothing else but the faults differs.
pub statement-eq-ok :
    {A : Type 0} (f : Db → Result (A × Db)) (w : World) {a : A} {w' : World}
    → statement f w ≡ (ok a, w')
    → (f w.db ≡ ok (a, w'.db)) × SameClock w w'
unfolding statement ok_or
statement-eq-ok f w {a} {w'} h = elim (Bool-cases (head_fault w.faults)) [
  | inl e ↦ absurd (let h' = rw (e, statement) at h in cc)
  | inr e ↦ elim (Result-cases (f w.db)) [
    | inl (r, e') ↦
        let h' = rw (e, e', statement) at h in
        (
          e' ∙ ap ok (Pair-eq r a w'.db (ap (λ p. ok_or r.0 p.0) h') (ap (λ p. p.1.db) h')),
          record {
            now = ap (λ p. p.1.now) (sym h');
            next_cart = ap (λ p. p.1.next_cart) (sym h');
            next_order = ap (λ p. p.1.next_order) (sym h');
          },
        )
    | inr (x, e') ↦ absurd (let h' = rw (e, e', statement) at h in cc)
  ]
]

pub same_clock :
    {w w' : World}
    → w'.now ≡ w.now
    → w'.next_cart ≡ w.next_cart
    → w'.next_order ≡ w.next_order
    → SameClock w w'
same_clock p q r = record { now = p; next_cart = q; next_order = r }

pub fail_if-eq-ok :
    (c : Bool) (e : Error) (w : World) {u : Unit {0}} {w' : World}
    → fail_if c e w ≡ (ok u, w')
    → (c ≡ false) × (w' ≡ w)
unfolding fail_if
fail_if-eq-ok true e w h = absurd cc
fail_if-eq-ok false e w h = (refl, ap (λ p. p.1) (sym h))

pub ok-injective : {A : Type 0} {a b : A} → ok a ≡ ok b → a ≡ b
unfolding ok_or
ok-injective {a} h = ap (ok_or a) h

pub exec-eq-ok :
    (f : Db → Db) (w : World) {u : Unit {0}} {w' : World}
    → exec f w ≡ (ok u, w')
    → (w'.db ≡ f w.db) × SameClock w w'
exec-eq-ok f w h =
    let (e, same) = statement-eq-ok _ w h in (ap (λ p. p.1) (sym (ok-injective e)), same)

pub query-eq-ok :
    {A : Type 0} (f : Db → A) (w : World) {a : A} {w' : World}
    → query f w ≡ (ok a, w')
    → (f w.db ≡ a) × (w'.db ≡ w.db) × SameClock w w'
query-eq-ok f w h =
    let (e, same) = statement-eq-ok _ w h in
    (ap (λ p. p.0) (ok-injective e), ap (λ p. p.1) (sym (ok-injective e)), same)

pub query_or-eq-ok :
    {A : Type 0} (e : Error) (f : Db → Option A) (w : World) {a : A} {w' : World}
    → query_or e f w ≡ (ok a, w')
    → (f w.db ≡ some a) × (w'.db ≡ w.db) × SameClock w w'
query_or-eq-ok {A} e f w {a} {w'} h =
    let (found, same) = statement-eq-ok _ w h in go (f w.db) refl found same
  where
    go :
        (o : Option A)
        → f w.db ≡ o
        → row_or e o w.db ≡ ok (a, w'.db)
        → SameClock w w'
        → (f w.db ≡ some a) × (w'.db ≡ w.db) × SameClock w w'
    go none q found same = absurd cc
    go (some x) q found same =
        let pair = ok-injective found in
        (q ∙ ap some (ap (λ p. p.0) pair), ap (λ p. p.1) (sym pair), same)

pub exec_check-eq-ok :
    (allowed : Db → Bool) (f : Db → Db) (w : World) {u : Unit {0}} {w' : World}
    → exec_check allowed f w ≡ (ok u, w')
    → (allowed w.db ≡ true) × (w'.db ≡ f w.db) × SameClock w w'
exec_check-eq-ok allowed f w {u} {w'} h =
    let (e, same) = statement-eq-ok _ w h in go (allowed w.db) refl e same
  where
    go :
        (b : Bool)
        → allowed w.db ≡ b
        → ◌≡◌ {A = Result (Unit {0} × Db)}
            (if b then ok (tt, f w.db) else err violation)
            (ok (u, w'.db))
        → SameClock w w'
        → (allowed w.db ≡ true) × (w'.db ≡ f w.db) × SameClock w w'
    go true q e same = (q, ap (λ p. p.1) (sym (ok-injective e)), same)
    go false q e same = absurd cc

pub SameClock-trans : {a b c : World} → SameClock a b → SameClock b c → SameClock a c
SameClock-trans p q =
    same_clock (q.now ∙ p.now) (q.next_cart ∙ p.next_cart) (q.next_order ∙ p.next_order)

-- What follows without a statement leaves the rows.
pub bind_pure-db :
    {A B : Type 0} (m : Tx A) (b : B) (w : World) → ((m >> pure b) w).1.db ≡ (m w).1.db
unfolding ◌>>=◌
bind_pure-db {A} {B} m b w = go (m w).0 (m w).1
  where
    go :
        (r : Result A) (w1 : World)
        → (let p : Result B × World = elim r [ ok a ↦ pure b w1 | err e ↦ (err e, w1) ] in p.1.db)
          ≡ w1.db
    go (ok a) w1 = refl
    go (err e) w1 = refl

-- A statement without constraints changes the rows, or fails and leaves them.
pub exec_cases : (f : Db → Db) (w : World) → ((exec f w).1.db ≡ f w.db) ⊎ ((exec f w).1.db ≡ w.db)
unfolding statement
exec_cases f w = elim (Bool-cases (head_fault w.faults)) [ inl e ↦ inr (rw e) | inr e ↦ inl (rw e) ]
