-- ===== src/Seed/Signups/Consistent.antt =====
-- internal/seed/generator.go: the customers refer to customers before them, their addresses follow each
-- other, and `firstCustOfDay` parts them by their day.
use duckstore.Prelude.{
  ℕ, zero, suc, ◌+◌, ◌-◌, ◌*◌, ◌≤◌, ◌<◌, ◌≡◌, refl, sym, ap, ◌∙◌, subst, Bool, true, false, List,
  [], ◌∷◌, ◌++◌, some, arith, get_elem?, length, length-append, map, get_elem?-snoc,
  get_elem?-below, All, All-append, ltb, ◌==◌, min, max, ◌⊎◌, inl, inr,
}
use duckstore.Seed.Emit.Reads.{
  Reads, Any, then_reads, pure_reads, int_reads, coin_reads, pick_reads, if_reads, weaken_reads,
}
use duckstore.Seed.Loads.{Living}
use duckstore.Seed.Loads.Versions.{IsConsecutive}
use duckstore.Seed.Signups.{
  Signup, Signups, day_length, mark_day, manager, referrer, sign_up, sign_ups, sign_up_days,
  build_customers,
}

abbrev pub living : Signup → Living
living c = record { addr_id = c.addr_id; addr_count = c.addr_count }

abbrev addresses : List Signup → ℕ
addresses [] = 0
addresses (c ∷ cs) = c.addr_count + addresses cs

-- The customers with an id below `v` signed up before the time, and all others then or later.
abbrev pub Parts : ℕ → ℕ → List Signup → Type 0
Parts v time cs =
    (n : ℕ) (c : Signup)
    → get_elem? cs n ≡ some c
    → ((n + 1 < v) × (c.created_at < time)) ⊎ ((v ≤ n + 1) × (time ≤ c.created_at))

-- No customer refers to one that signs up later, or to itself.
abbrev pub RefersBack : List Signup → Type 0
RefersBack cs = (n : ℕ) (c : Signup) → get_elem? cs n ≡ some c → c.referred_by ≤ n

-- Before the day `d`: `firstCustOfDay` has the days before it.
pub record Consistent (start d : ℕ) (s : Signups) : Type 0 where
  pub early : All (λ (c : Signup). c.created_at < start + d * day_length) s.customers
  pub referred : RefersBack s.customers
  pub consecutive : IsConsecutive 1 (map living s.customers)
  pub addr : s.addr ≡ addresses s.customers
  pub days : length s.first_of_day ≡ d
  pub parts :
      (e v : ℕ)
      → get_elem? s.first_of_day e ≡ some v
      → (v ≤ length s.customers + 1) × Parts v (start + e * day_length) s.customers

IsConsecutive-snoc :
    (n : ℕ) (cs : List Signup) (c : Signup)
    → IsConsecutive n (map living cs)
    → c.addr_id ≡ n + addresses cs
    → IsConsecutive n (map living (cs ++ c ∷ []))
IsConsecutive-snoc n [] c h e = (omega arith, tt)
IsConsecutive-snoc n (x ∷ cs) c h e =
    (h.0, IsConsecutive-snoc (n + x.addr_count) cs c h.1 (omega arith))

addresses-snoc :
    (cs : List Signup) (c : Signup) → addresses (cs ++ c ∷ []) ≡ addresses cs + c.addr_count
addresses-snoc [] c = omega arith
addresses-snoc (x ∷ cs) c = let h = addresses-snoc cs c in omega arith

All-index :
    {A : Type 0} (P : A → Type 0) (xs : List A) (n : ℕ) (x : A)
    → All P xs
    → get_elem? xs n ≡ some x
    → P x
All-index P [] n x h e = absurd cc
All-index P (a ∷ xs) zero x h e = subst P (cc) h.0
All-index P (a ∷ xs) (suc n) x h e = All-index P xs n x h.1 e

RefersBack-snoc :
    (cs : List Signup) (c : Signup)
    → RefersBack cs
    → c.referred_by ≤ length cs
    → RefersBack (cs ++ c ∷ [])
RefersBack-snoc cs c h le n x e = elim (get_elem?-snoc cs c n x e) [
  | inl old ↦ h n x old
  | inr (last, same) ↦ subst (λ (x : Signup). x.referred_by ≤ n) same (omega arith)
]

Parts-snoc :
    (v time : ℕ) (cs : List Signup) (c : Signup)
    → Parts v time cs
    → v ≤ length cs + 1
    → time ≤ c.created_at
    → Parts v time (cs ++ c ∷ [])
Parts-snoc v time cs c h le later n x e = elim (get_elem?-snoc cs c n x e) [
  | inl old ↦ h n x old
  | inr (last, same) ↦ inr (omega arith, subst (λ (x : Signup). time ≤ x.created_at) same later)
]

-- A new day: all customers of before have signed up before it.
mark_day-Consistent :
    (start d : ℕ) (s : Signups) → Consistent start d s → Consistent start (d + 1) (mark_day s)
mark_day-Consistent start d s h = record {
  early = later s.customers h.early;
  referred = h.referred;
  consecutive = h.consecutive;
  addr = h.addr;
  days = length-append s.first_of_day _ ∙ ap (λ n. n + 1) h.days;
  parts = λ e v at. elim (get_elem?-snoc s.first_of_day (length s.customers + 1) e v at) [
    | inl old ↦ h.parts e v old
    | inr (last, same) ↦ (
      omega arith,
      λ n c here. inl (
        let below = get_elem?-below s.customers n c here in omega arith,
        subst (λ i. c.created_at < start + i * day_length) (sym (last ∙ h.days))
            (All-index _ s.customers n c h.early here),
      ),
    )
  ];
}
  where
    later :
        (cs : List Signup)
        → All (λ (c : Signup). c.created_at < start + d * day_length) cs
        → All (λ (c : Signup). c.created_at < start + (d + 1) * day_length) cs
    later [] h = tt
    later (c ∷ cs) h = (omega arith, later cs h.1)

-- Another customer of the day `d`.
add-Consistent :
    (start d : ℕ) (s : Signups) (c : Signup)
    → Consistent start (d + 1) s
    → start + d * day_length ≤ c.created_at
    → c.created_at < start + (d + 1) * day_length
    → c.referred_by ≤ length s.customers
    → c.addr_id ≡ s.addr + 1
    → Consistent start
        (d + 1)
        (record s { customers = s.customers ++ c ∷ []; addr = s.addr + c.addr_count })
add-Consistent start d s c h from until back follows = record {
  early = All-append _ s.customers (c ∷ []) h.early (until, tt);
  referred = RefersBack-snoc s.customers c h.referred back;
  consecutive = IsConsecutive-snoc 1 s.customers c h.consecutive (let a = h.addr in omega arith);
  addr = ap (λ n. n + c.addr_count) h.addr ∙ sym (addresses-snoc s.customers c);
  days = h.days;
  parts = λ e v at. (
    (let p = (h.parts e v at).0 in let l = length-append s.customers (c ∷ []) in omega arith),
    Parts-snoc v (start + e * day_length) s.customers c (h.parts e v at).1 (h.parts e v at).0
        (let below = get_elem?-below s.first_of_day e v at in let n = h.days in omega arith),
  );
}

module _ {O : Type 0} (countries : ℕ) (execs_of : ℕ → List ℕ) where
  manager_reads :
      (segment country : ℕ) → Reads {O = O} (manager countries execs_of segment country) Any
  manager_reads segment country =
      if_reads (segment == 0) (λ e. pure_reads 0 tt) (λ e. pick_reads (execs_of country))

  -- A referrer, or none, among the customers of before.
  referrer_reads :
      (n : ℕ) (is_referred : Bool)
      → (is_referred ≡ true → 0 < n)
      → Reads {O = O} (referrer countries execs_of (n + 1) is_referred) (λ r. r ≤ n)
  referrer_reads n is_referred some_before =
      if_reads is_referred
        (λ e.
          then_reads (int_reads (min (n + 1 - 1) 50000))
            (λ k u. pure_reads (max 1 (n + 1 - 1 - k)) (let p = some_before e in omega arith)))
        (λ e. pure_reads 0 (omega arith))

  sign_up-Consistent :
      (start d t : ℕ) (s : Signups)
      → Consistent start (d + 1) s
      → start + d * day_length ≤ t
      → t < start + (d + 1) * day_length
      → Reads {O = O} (sign_up countries execs_of t s) (Consistent start (d + 1))
  unfolding sign_up
  sign_up-Consistent start d t s h from until = then_reads (int_reads countries) (λ country u.
      then_reads (int_reads 3) (λ segment u.
        then_reads (manager_reads segment country) (λ account_mgr u.
          then_reads {F = λ b. b ≡ true → 0 < length s.customers}
            (if_reads (ltb 500 (length s.customers + 1))
              (λ e. weaken_reads (λ b u _. many (length s.customers) e) coin_reads)
              (λ e. pure_reads false (λ f. absurd cc)))
            (λ is_referred some_before.
              then_reads (referrer_reads (length s.customers) is_referred some_before)
                (λ referred_by back.
                  then_reads (int_reads 3) (λ more u.
                    pure_reads _ (add-Consistent start d s _ h from until back refl)))))))
    where
      many : (n : ℕ) → ltb 500 (n + 1) ≡ true → 0 < n
      many n h = ground arith

  sign_ups-Consistent :
      (start d : ℕ) (secs : List ℕ) (s : Signups)
      → All (λ (sec : ℕ). sec < day_length) secs
      → Consistent start (d + 1) s
      → Reads {O = O}
          (sign_ups countries execs_of (start + d * day_length) secs s)
          (Consistent start (d + 1))
  unfolding sign_ups
  sign_ups-Consistent start d [] s day h = pure_reads s h
  sign_ups-Consistent start d (sec ∷ secs) s day h =
      then_reads
        (sign_up-Consistent start d (start + d * day_length + sec) s h (omega arith)
          (let lt = day.0 in omega arith))
        (λ s' h'. sign_ups-Consistent start d secs s' day.1 h')

  days-Consistent :
      (start d : ℕ) (days : List (List ℕ)) (s : Signups)
      → All (All (λ (sec : ℕ). sec < day_length)) days
      → Consistent start d s
      → Reads {O = O}
          (sign_up_days countries execs_of start d days s)
          (Consistent start (d + length days + 1))
  unfolding sign_up_days
  days-Consistent start d [] s in_day h =
      pure_reads _ (
        subst (λ i. Consistent start i (mark_day s)) (omega arith)
          (mark_day-Consistent start d s h))
  days-Consistent start d (secs ∷ days) s in_day h =
      then_reads
        (sign_ups-Consistent start d secs (mark_day s) in_day.0 (mark_day-Consistent start d s h))
        (λ s' h'.
          weaken_reads (λ s'' h''. subst (λ i. Consistent start i s'') (omega arith) h'')
            (days-Consistent start (d + 1) days s' in_day.1 h'))

  -- Where the seconds are those of a day: every referrer is a customer of before, the addresses of
  -- the customers count from 1 on without a gap, and for every day e and at the end, the customers
  -- with an id below firstCustOfDay[e] are those who signed up before the day e.
  pub build_customers-Consistent :
      (start : ℕ) (days : List (List ℕ))
      → All (All (λ (sec : ℕ). sec < day_length)) days
      → Reads {O = O}
          (build_customers countries execs_of start days)
          (Consistent start (length days + 1))
  unfolding build_customers
  build_customers-Consistent start days in_day =
      weaken_reads (λ s h. subst (λ i. Consistent start i s) (omega arith) h)
        (days-Consistent start 0 days _ in_day (record {
          early = tt;
          referred = λ n c e. absurd cc;
          consecutive = tt;
          addr = refl;
          days = refl;
          parts = λ e v at. absurd cc;
        }))
