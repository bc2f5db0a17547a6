-- ===== src/Web/Pages/Shopping.antt =====
-- internal/web/store.go: the customer of a page is in the table, and the browser keeps it.
use duckstore.Prelude.{
  ℕ, zero, suc, ==_iff, ◌≡◌, ◌⊎◌, inl, inr, refl, ap, sym, ◌∙◌, subst, true, List, [], ◌∷◌, Option,
  none, some, ◌==◌, if◌then◌else◌, if_ind,
}
use duckstore.Prelude.Int.{ℤ, pos, negsuc}
use duckstore.Prelude.Text.{Text}
use duckstore.Prelude.Text.Decimal.{parse_int}
use duckstore.Web.Pages.{
  Person, Site, Got, failed, got, missing, not_built, canceled, not_there, other, Page, Fault,
  error_of, other_faults, ◌>>=◌, pure, fail, ask, with_id, exactly_one, load_customer, from_floor,
  draw_floor, id_or, try_random, random_customer, first_fault, set_customer_cookie, new_customer,
  or_new, current_customer,
}

-- A row of the table.
pub data IsPerson (p : Person) : List Person → Type 0 where
  first : (ps : List Person) → IsPerson p (p ∷ ps)
  later : (q : Person) (ps : List Person) → IsPerson p ps → IsPerson p (q ∷ ps)

-- What holds where there is a result.
abbrev pub After : {A : Type 0} → (A → Site → Type 0) → Got A × Site → Type 0
After Q (failed e, s) = Unit {0}
After Q (got a, s) = Q a s

record Keeps {A : Type 0} (P : Site → Type 0) (m : Page A) (Q : A → Site → Type 0) : Type 0 where
  run : (s : Site) → P s → After Q (m s)

bind :
    {A B : Type 0} {P : Site → Type 0} {m : Page A} {Q : A → Site → Type 0} {f : A → Page B}
    {R : B → Site → Type 0}
    → Keeps P m Q
    → ((a : A) → Keeps (Q a) (f a) R)
    → Keeps P (m >>= f) R
unfolding ◌>>=◌
bind {A} {B} {P} {m} {Q} {f} {R} t k = record { run = λ s p. go (m s) (t.run s p) }
  where
    go :
        (r : Got A × Site)
        → After Q r
        → After R (elim r.0 [ failed e ↦ (failed e, r.1) | got a ↦ f a r.1 ])
    go (failed e, s) h = tt
    go (got a, s) h = (k a).run s h

-- The table and the cookie of the answer.
abbrev IsAt : List Person → Option ℕ → Site → Type 0
IsAt people cookie s = (s.people ≡ people) × (s.customer_cookie ≡ cookie)

with_id-IsPerson :
    (id : ℤ) (ps : List Person) (p : Person)
    → with_id id ps ≡ some p
    → IsPerson p ps × (id ≡ pos p.id)
with_id-IsPerson (negsuc n) ps p = λ e. absurd cc
with_id-IsPerson (pos id) [] p = λ e. absurd cc
with_id-IsPerson (pos id) (q ∷ ps) p =
    if_ind (λ r. r ≡ some p → IsPerson p (q ∷ ps) × (pos id ≡ pos p.id)) (q.id == id)
      (λ t e.
        let same : q ≡ p = cc in
        subst (λ (p : Person). IsPerson p (q ∷ ps) × (pos id ≡ pos p.id)) same
          (first ps, ap pos (sym ((==_iff q.id id).0 t))))
      (λ t e. let h = with_id-IsPerson (pos id) ps p e in (later q ps h.0, h.1))

module _ (people : List Person) (cookie : Option ℕ) where
  asks :
      {A : Type 0} (q : List Person → A)
      → Keeps (IsAt people cookie) (ask q) (λ a s. (a ≡ q people) × IsAt people cookie s)
  unfolding ask
  asks {A} q = record { run = λ s h. go s h (first_fault s.faults) }
    where
      go :
          (s : Site)
          → IsAt people cookie s
          → (f : Option Fault)
          → (let s' : Site = record s { faults = other_faults s.faults } in
              let asked : Got A × Site = elim f [
                | some f ↦ (failed (error_of f), s')
                | none ↦ (got (q s.people), s')
              ] in
              After (λ a s'. (a ≡ q people) × IsAt people cookie s') asked)
      go s h none = (ap q h.0, h)
      go s h (some f) = tt

  loads :
      (id : ℤ)
      → Keeps
          (IsAt people cookie)
          (load_customer id)
          (λ p s. IsPerson p people × (id ≡ pos p.id) × IsAt people cookie s)
  unfolding load_customer pure fail
  loads id = bind (asks (with_id id)) one
    where
      one :
          (r : Option Person)
          → Keeps
              (λ s. (r ≡ with_id id people) × IsAt people cookie s)
              (exactly_one r)
              (λ p s. IsPerson p people × (id ≡ pos p.id) × IsAt people cookie s)
      one none = record { run = λ s h. tt }
      one (some p) = record {
        run = λ s h. let q = with_id-IsPerson id people p (sym h.0) in (q.0, q.1, h.1);
      }

  id_or-IsAt :
      (again : Page ℕ) (found r : Option Person)
      → Keeps (IsAt people cookie) again (λ id s. IsAt people cookie s)
      → Keeps
          (λ s. (found ≡ r) × IsAt people cookie s)
          (id_or again found)
          (λ id s. IsAt people cookie s)
  unfolding pure
  id_or-IsAt again none r t = record { run = λ s h. t.run s h.1 }
  id_or-IsAt again (some p) r t = record { run = λ s h. h.1 }

  tries :
      (n : ℕ) (country : Text)
      → Keeps (IsAt people cookie) (try_random n country) (λ id s. IsAt people cookie s)
  unfolding try_random fail draw_floor
  tries zero country = record { run = λ s h. tt }
  tries (suc n) country =
      bind {Q = λ floor s. IsAt people cookie s} (record { run = λ s h. h })
        (λ floor. bind (asks (from_floor floor country)) (λ found.
          id_or-IsAt (try_random n country) found (from_floor floor country people)
            (tries n country)))

mapped :
    {A : Type 0} {P : Site → Type 0} {m : Page A} {Q R : A → Site → Type 0}
    → ((a : A) (s : Site) → Q a s → R a s)
    → Keeps P m Q
    → Keeps P m R
mapped {A} {P} {m} {Q} {R} h t = record { run = λ s p. go (m s) (t.run s p) }
  where
    go : (r : Got A × Site) → After Q r → After R r
    go (failed e, s) q = tt
    go (got a, s) q = h a s q

-- Another customer, whose cookie is set.
others :
    (people : List Person) (cookie : Option ℕ)
    → Keeps
        (IsAt people cookie)
        new_customer
        (λ p s. IsPerson p people × (s.people ≡ people) × (s.customer_cookie ≡ some p.id))
unfolding new_customer random_customer set_customer_cookie
others people cookie = bind (tries people cookie 5 []) (λ id.
    bind {Q = λ u s. IsAt people (some id) s} (record { run = λ s h. (h.0, refl) })
      (λ u.
        mapped (λ p s h. (h.0, h.2.0, (let same = h.1 in let is = h.2.1 in cc)))
          (loads people (some id) (pos id))))

-- The customer of a page: a row of the table, and the browser's cookie names it from now on, as the
-- request's did or as the answer sets it.
abbrev pub value_of : Option Text → Option ℤ
value_of none = none
value_of (some v) = if (parse_int v).valid then some (parse_int v).value else none

abbrev pub IsShopping : Option Text → Site → Person → Site → Type 0
IsShopping cookie before p after =
    IsPerson p before.people
    × (after.people ≡ before.people)
    × ((after.customer_cookie ≡ some p.id)
        ⊎ ((value_of cookie ≡ some (pos p.id)) × (after.customer_cookie ≡ before.customer_cookie)))

new_customer-IsShopping :
    (cookie : Option Text) (s s' : Site)
    → s'.people ≡ s.people
    → After (λ p s''. IsShopping cookie s p s'') (new_customer s')
new_customer-IsShopping cookie s s' same =
    go (new_customer s') ((others s'.people s'.customer_cookie).run s' (refl, refl))
  where
    go :
        (r : Got Person × Site)
        → After
            (λ p s''.
              IsPerson p s'.people × (s''.people ≡ s'.people) × (s''.customer_cookie ≡ some p.id))
            r
        → After (λ p s''. IsShopping cookie s p s'') r
    go (failed e, s'') h = tt
    go (got p, s'') h = (subst (IsPerson p) same h.0, h.1 ∙ same, inl h.2)

load_customer-people : (id : ℤ) (s : Site) → (load_customer id s).1.people ≡ s.people
unfolding load_customer ask ◌>>=◌ pure fail
load_customer-people id s = go (first_fault s.faults) (with_id id s.people)
  where
    go :
        (f : Option Fault) (found : Option Person)
        → (let s' : Site = record s { faults = other_faults s.faults } in
            let asked : Got (Option Person) × Site = elim f [
              | some f ↦ (failed (error_of f), s')
              | none ↦ (got found, s')
            ] in
            let loaded : Got Person × Site = elim asked.0 [
              | failed e ↦ (failed e, asked.1)
              | got a ↦ exactly_one a asked.1
            ] in
            loaded.1.people ≡ s.people)
    go (some f) found = refl
    go none none = refl
    go none (some p) = refl

or_new-IsShopping :
    (cookie : Option Text) (s : Site) (r : Got Person × Site)
    → r.1.people ≡ s.people
    → After
        (λ p s'.
          IsPerson p s.people
          × (value_of cookie ≡ some (pos p.id))
          × IsAt s.people s.customer_cookie s')
        r
    → After (λ p s'. IsShopping cookie s p s') (or_new r)
or_new-IsShopping cookie s (failed missing, s') same h = new_customer-IsShopping cookie s s' same
or_new-IsShopping cookie s (failed not_built, s') same h = tt
or_new-IsShopping cookie s (failed canceled, s') same h = tt
or_new-IsShopping cookie s (failed (not_there t), s') same h = tt
or_new-IsShopping cookie s (failed (other t), s') same h = tt
or_new-IsShopping cookie s (got p, s') same h = (h.0, h.2.0, inr (h.1, h.2.1))

-- Where currentCustomer gives a customer, it is a row of the table, and the browser's cookie names it
-- from then on: the request's cookie did, or the answer sets it.
pub current_customer-IsShopping :
    (cookie : Option Text) (s : Site)
    → After (λ p s'. IsShopping cookie s p s') (current_customer cookie s)
unfolding current_customer
current_customer-IsShopping none s = new_customer-IsShopping none s s refl
current_customer-IsShopping (some v) s =
    if_ind (After (λ p s'. IsShopping (some v) s p s')) (parse_int v).valid
      (λ valid.
        or_new-IsShopping (some v) s (load_customer (parse_int v).value s)
          (load_customer-people (parse_int v).value s) (named valid))
      (λ _. new_customer-IsShopping (some v) s s refl)
  where
    named :
        (parse_int v).valid ≡ true
        → After
            (λ p s'.
              IsPerson p s.people
              × (value_of (some v) ≡ some (pos p.id))
              × IsAt s.people s.customer_cookie s')
            (load_customer (parse_int v).value s)
    named valid =
        (mapped
            (λ p s' h. (
              h.0,
              ap (λ b. if b then some (parse_int v).value else none) valid ∙ ap some h.1,
              h.2,
            ))
            (loads s.people s.customer_cookie (parse_int v).value)).run
          s (refl, refl)
