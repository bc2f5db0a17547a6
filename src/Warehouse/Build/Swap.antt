-- ===== src/Warehouse/Build/Swap.antt =====
-- internal/warehouse/etl.go: `Build` keeps the file in use until the new one is complete.
use duckstore.Prelude.{
  ℕ, ◌≡◌, ◌⊎◌, inl, inr, refl, ap, ◌∙◌, true, List, [], ◌∷◌, Option, none, some, if_ind,
}
use duckstore.Prelude.Text.{Text}
use duckstore.Warehouse.Build.{
  Engine, BuildError, etl_running, failed, Disk, Answer, ok, err, Io, ◌>>=◌, next_fault,
  later_faults, file_op, make_data_dir, remove_leftovers, swap_parquet, swap, work, or_failed, run,
  run_all, run_scripts, labelled, fill, build,
}

-- Nothing of what the readers use is different.
pub record SameInUse {W P : Type 0} (s s' : Disk W P) : Type 0 where
  pub final : s'.final ≡ s.final
  pub parquet : s'.parquet ≡ s.parquet

same_in_use :
    {W P : Type 0} {s s' : Disk W P} → s'.final ≡ s.final → s'.parquet ≡ s.parquet → SameInUse s s'
same_in_use p q = record { final = p; parquet = q }

same_trans :
    {W P : Type 0} {s s' s'' : Disk W P} → SameInUse s s' → SameInUse s' s'' → SameInUse s s''
same_trans p q = record { final = q.final ∙ p.final; parquet = q.parquet ∙ p.parquet }

abbrev Keeps : {W P A : Type 0} → Io W P A → Type 0
Keeps {W} {P} m = (s : Disk W P) → SameInUse s (m s).1

bind-Keeps :
    {W P A B : Type 0} (m : Io W P A) (f : A → Io W P B)
    → Keeps m
    → ((a : A) → Keeps (f a))
    → Keeps (m >>= f)
unfolding ◌>>=◌
bind-Keeps {W} {P} {A} {B} m f hm hf s = go (m s).0 (m s).1 (hm s)
  where
    go :
        (r : Answer A) (s1 : Disk W P)
        → SameInUse s s1
        → SameInUse s
            (let p : Answer B × Disk W P = elim r [ ok a ↦ f a s1 | err x ↦ (err x, s1) ] in p.1)
    go (ok a) s1 h = same_trans h (hf a s1)
    go (err x) s1 h = h

module _ {W P : Type 0} where
  file_op-Keeps :
      (f : Disk W P → Disk W P) → ((s : Disk W P) → SameInUse s (f s)) → Keeps (file_op f)
  unfolding file_op
  file_op-Keeps f h s =
      let s1 : Disk W P = record s { faults = later_faults s.faults } in
      if_ind (λ (p : Answer (Unit {0}) × Disk W P). SameInUse s p.1) (next_fault s.faults)
        (λ _. same_in_use refl refl) (λ _. same_trans (same_in_use refl refl) (h s1))

  or_failed-Keeps : {A : Type 0} (o : Option A) → Keeps {W = W} {P = P} (or_failed o)
  or_failed-Keeps none s = same_in_use refl refl
  or_failed-Keeps (some a) s = same_in_use refl refl

  remove_leftovers-Keeps : Keeps {W = W} {P = P} remove_leftovers
  remove_leftovers-Keeps =
      bind-Keeps _ _
        (bind-Keeps _ _ (file_op-Keeps _ (λ s. same_in_use refl refl))
          (λ _. file_op-Keeps _ (λ s. same_in_use refl refl)))
        (λ _. file_op-Keeps _ (λ s. same_in_use refl refl))

module _ (e : Engine) where
  open e use {W, P}

  run-Keeps : (q : Text × Text) → Keeps (run e q)
  unfolding run
  run-Keeps (label, q) s =
      bind-Keeps _ _ (or_failed-Keeps _)
        (λ done d.
          let d' : Disk W P = record d { building = some done.1; parquet_building = done.2 } in
          same_trans {s' = d'} (same_in_use refl refl)
            (bind-Keeps _ _ (or_failed-Keeps _) (λ rows d''. same_in_use refl refl) d'))
        s

  run_all-Keeps : (qs : List (Text × Text)) → Keeps (run_all e qs)
  unfolding run_all
  run_all-Keeps [] = λ s. same_in_use refl refl
  run_all-Keeps (q ∷ qs) = bind-Keeps _ _ (run-Keeps q) (λ _. run_all-Keeps qs)

  run_scripts-Keeps : (n : Text) (scripts : List Text) → Keeps (run_scripts e n scripts)
  unfolding run_scripts
  run_scripts-Keeps n [] = λ s. same_in_use refl refl
  run_scripts-Keeps n (t ∷ ts) =
      bind-Keeps _ _ (bind-Keeps _ _ (or_failed-Keeps _) (λ sts. run_all-Keeps (labelled sts)))
        (λ _. run_scripts-Keeps n ts)

  fill-Keeps : (url dir : Text) (scripts : List Text) → Keeps (fill e url dir scripts)
  unfolding fill
  fill-Keeps url dir scripts = bind-Keeps _ _ (file_op-Keeps _ (λ s. same_in_use refl refl)) (λ _.
      bind-Keeps _ _ (run_all-Keeps _) (λ _.
        bind-Keeps _ _ (λ s. or_failed-Keeps _ s)
          (λ n. bind-Keeps _ _ (run_scripts-Keeps _ scripts) (λ _.
            bind-Keeps _ _ (file_op-Keeps _ (λ s. same_in_use refl refl)) (λ _.
              bind-Keeps _ _ (run_all-Keeps _) (λ _.
                bind-Keeps _ _ (λ s. run_all-Keeps _ s)
                  (λ _.
                    bind-Keeps _ _ (file_op-Keeps _ (λ s. same_in_use refl refl))
                      (λ _ s. same_in_use refl refl))))))))

-- A property of a sequence, whether the first part failed or the second ran on what it left.
bind_ind :
    {W P A B : Type 0} (Q : Answer B × Disk W P → Type 0) (m : Io W P A) (f : A → Io W P B)
    (s : Disk W P)
    → ((x : BuildError) → m s ≡ (err x, (m s).1) → Q (err x, (m s).1))
    → ((a : A) → m s ≡ (ok a, (m s).1) → Q (f a (m s).1))
    → Q ((m >>= f) s)
unfolding ◌>>=◌
bind_ind {W} {P} {A} {B} Q m f s g h = go (m s).0 (m s).1 g h
  where
    go :
        (r : Answer A) (s1 : Disk W P)
        → ((x : BuildError) → ◌≡◌ {A = Answer A × Disk W P} (r, s1) (err x, s1) → Q (err x, s1))
        → ((a : A) → ◌≡◌ {A = Answer A × Disk W P} (r, s1) (ok a, s1) → Q (f a s1))
        → Q (elim r [ ok a ↦ f a s1 | err x ↦ (err x, s1) ])
    go (ok a) s1 g h = h a refl
    go (err x) s1 g h = g x refl

module _ {W P : Type 0} where
  -- The same of a file operation.
  file_op_ind :
      (Q : Answer (Unit {0}) × Disk W P → Type 0) (f : Disk W P → Disk W P) (s : Disk W P)
      → let s1 : Disk W P = record s { faults = later_faults s.faults } in
        Q (err failed, s1) → Q (ok tt, f s1) → Q (file_op f s)
  unfolding file_op
  file_op_ind Q f s g h = if_ind Q (next_fault s.faults) (λ _. g) (λ _. h)

  swap_parquet-final : (s : Disk W P) → (swap_parquet s).1.final ≡ s.final
  unfolding swap_parquet
  swap_parquet-final s =
      let first =
        file_op_ind (λ p. p.1.final ≡ s.final) (λ d. record d { parquet = none }) s refl refl in
      bind_ind (λ p. p.1.final ≡ s.final) (file_op (λ d. record d { parquet = none })) _ s
        (λ x _. first)
        (λ _ _.
          file_op_ind (λ p. p.1.final ≡ s.final)
            (λ d. record d { parquet = d.parquet_building; parquet_building = none }) _ first first)

  -- The rename that puts the new file in place failed, or it is in place whatever followed.
  abbrev Swaps : Disk W P → Answer (Unit {0}) × Disk W P → Type 0
  Swaps s p = (SameInUse s p.1 × ((x : BuildError) × (p.0 ≡ err x))) ⊎ (p.1.final ≡ s.building)

  abbrev put_in_place : Disk W P → Disk W P
  put_in_place d = record d { final = d.building; building = none }

  swap-Swaps : (s : Disk W P) → Swaps s (swap s)
  unfolding swap
  swap-Swaps s =
      let renamed =
        file_op_ind (λ p. (p.0 ≡ ok tt) → p.1.final ≡ s.building) put_in_place s (λ b. absurd cc)
          (λ _. refl) in
      let same =
        file_op_ind (λ p. ((x : BuildError) → p.0 ≡ err x → SameInUse s p.1)) put_in_place s
          (λ x _. same_in_use refl refl) (λ x b. absurd cc) in
      bind_ind (Swaps s) (file_op put_in_place) (λ _. swap_parquet) s
        (λ x e. inl (same x (ap (λ p. p.0) e), (x, refl)))
        (λ a e. inr (swap_parquet-final _ ∙ renamed (ap (λ p. p.0) e)))

module _ (e : Engine) where
  open e use {W, P}

  -- The file in use after `Build`: still the one of before, and there is an error; or the file that
  -- every statement was run on.
  abbrev pub Built : Text → Text → List Text → Disk W P → Answer ℕ × Disk W P → Type 0
  Built url dir scripts s p =
      (SameInUse s p.1 × ((x : BuildError) × (p.0 ≡ err x)))
      ⊎ ((t : Disk W P) × (n : ℕ) × (t' : Disk W P) × (fill e url dir scripts t ≡ (ok n, t'))
          × (p.1.final ≡ t'.building))

  module _ (url dir : Text) (scripts : List Text) where
    work-Built : (s : Disk W P) → Built url dir scripts s (work e url dir scripts s)
    unfolding work
    work-Built s =
        let s1 : Disk W P = (remove_leftovers s).1 in
        let left = remove_leftovers-Keeps s in
        let s2 : Disk W P = (fill e url dir scripts s1).1 in
        let filled = same_trans left (fill-Keeps e url dir scripts s1) in
        bind_ind (Built url dir scripts s) remove_leftovers _ s (λ x _. inl (left, (x, refl)))
          (λ _ _.
            bind_ind (Built url dir scripts s) (fill e url dir scripts) _ s1
              (λ x _. inl (filled, (x, refl)))
              (λ n ran.
                bind_ind (Built url dir scripts s) swap _ s2
                  (λ x _. elim (swap-Swaps s2) [
                    | inl (same, _) ↦ inl (same_trans filled same, (x, refl))
                    | inr final ↦ inr (s1, n, s2, ran, final)
                  ])
                  (λ a swapped. elim (swap-Swaps s2) [
                    | inl (_, (x, broken)) ↦ absurd (let e' = ap (λ p. p.0) swapped in cc)
                    | inr final ↦ inr (s1, n, s2, ran, final)
                  ])))

    -- Whatever file operations and statements fail, after `Build` the readers find the file and the
    -- Parquet files of before, and an error is reported, or they find a warehouse file on which
    -- every statement of the build has been run.
    pub build-Built : (s : Disk W P) → Built url dir scripts s (build e url dir scripts s)
    unfolding build
    build-Built s =
        let same = file_op-Keeps (λ d. d) (λ d. same_in_use refl refl) s in
        let s1 : Disk W P = (make_data_dir s).1 in
        let worked = work-Built (record s1 { locked = true; steps = [] }) in
        bind_ind (Built url dir scripts s) make_data_dir _ s (λ x _. inl (same, (x, refl)))
          (λ _ _.
            if_ind (Built url dir scripts s) s1.locked (λ _. inl (same, (etl_running, refl)))
              (λ _. elim worked [
                | inl (kept, (x, r)) ↦
                    inl (same_trans same (same_in_use kept.final kept.parquet), (x, r))
                | inr found ↦ inr found
              ]))
