-- ===== src/Web/Runs/Single.antt =====
-- internal/web/race.go and internal/web/etl.go: however requests interleave, no two runs are under
-- way at once.
use duckstore.Prelude.{
  ◌≡◌, inl, inr, refl, sym, ap, ◌∙◌, subst, Bool, true, false, List, [], ◌∷◌, ◌++◌, append-nil,
  append_assoc, Option, none, some, All, some_inj, Bool-cases, if◌then◌else◌,
}
use duckstore.Prelude.Text.{Text, equal, is_empty}
use duckstore.Web.Runs.{
  Scenario, RaceState, Start, not_found, busy, started, find, begin_race, race_start, race_end,
  EtlRunner, etl_start, etl_step, etl_end,
}

-- The scenario that a start puts under way.
abbrev pub launched : Start → List Scenario
launched (started sc) = sc ∷ []
launched (busy _) = []
launched not_found = []

-- The state and the races under way after some requests: one has come and started a race, or was
-- turned away; or a race under way has ended.
pub data Raced {R : Type 0} (scenarios : List Scenario) (first : RaceState R)
    : RaceState R → List Scenario → Type 0 where
  idle : Raced scenarios first first []
  request :
      (id : Text) {s : RaceState R} {runs : List Scenario}
      → Raced scenarios first s runs
      → Raced scenarios first
          (race_start scenarios id s).1
          (launched (race_start scenarios id s).0 ++ runs)
  end_of :
      (before : List Scenario) (sc : Scenario) (after : List Scenario) (r : Option R)
      {s : RaceState R}
      → Raced scenarios first s (before ++ sc ∷ after)
      → Raced scenarios first (race_end sc r s) (before ++ after)

-- Nothing is under way and no title is shown, or one race is, and its title is shown.
abbrev pub IsSingle : Text → List Scenario → Type 0
IsSingle running [] = running ≡ []
IsSingle running (sc ∷ []) = (running ≡ sc.title) × (is_empty sc.title ≡ false)
IsSingle running (_ ∷ _ ∷ _) = ⊥

abbrev pub HasTitle : Scenario → Type 0
HasTitle sc = is_empty sc.title ≡ false

find-HasTitle :
    (id : Text) (ss : List Scenario) {sc : Scenario}
    → All HasTitle ss
    → find id ss ≡ some sc
    → HasTitle sc
unfolding find
find-HasTitle id [] h e = absurd cc
find-HasTitle id (s ∷ ss) {sc} h e = elim (Bool-cases (equal s.id id)) [
  | inl q ↦ subst HasTitle (some_inj (rw q at e)) h.0
  | inr q ↦ find-HasTitle id ss h.1 (rw q at e)
]

end-IsSingle :
    (before : List Scenario) (sc : Scenario) (after : List Scenario) (running : Text)
    → IsSingle running (before ++ sc ∷ after)
    → IsSingle [] (before ++ after)
end-IsSingle [] sc [] running h = refl
end-IsSingle [] sc (_ ∷ _) running h = absurd h
end-IsSingle (b ∷ []) sc after running h = absurd h
end-IsSingle (b ∷ c ∷ before) sc after running h = absurd h

module _ {R : Type 0} where
  start-IsSingle :
      (o : Option Scenario) (s : RaceState R) (runs : List Scenario)
      → ((sc : Scenario) → o ≡ some sc → HasTitle sc)
      → IsSingle s.running runs
      → IsSingle (begin_race o s).1.running (launched (begin_race o s).0 ++ runs)
  start-IsSingle none s runs t h = h
  start-IsSingle (some sc) s [] t h = rw h (refl, t sc refl)
  start-IsSingle (some sc) s (r ∷ []) t h =
      let e : is_empty s.running ≡ false = ap (λ x. is_empty x) h.0 ∙ h.1 in rw e h
  start-IsSingle (some sc) s (_ ∷ _ ∷ _) t h = absurd h

  -- If every scenario has a title, then from an idle server on, whatever requests come and whenever
  -- races end, at most one race is under way, and `running` is its title; it is empty when there is
  -- none.
  pub Raced-IsSingle :
      (scenarios : List Scenario) (first s : RaceState R) (runs : List Scenario)
      → All HasTitle scenarios
      → first.running ≡ []
      → Raced scenarios first s runs
      → IsSingle s.running runs
  unfolding race_start race_end
  Raced-IsSingle scenarios first s runs t h idle = h
  Raced-IsSingle scenarios first s runs t h (request id {s = s0} {runs = runs0} before) =
      start-IsSingle (find id scenarios) s0 runs0 (λ sc e. find-HasTitle id scenarios t e)
        (Raced-IsSingle scenarios first s0 runs0 t h before)
  Raced-IsSingle scenarios first s runs t h (end_of before sc after r {s = s0} raced) =
      end-IsSingle before sc after s0.running (Raced-IsSingle scenarios first s0 _ t h raced)

-- The steps among what reaches the runner.
module _ {S : Type 0} where
  abbrev pub steps_of : List (Option S) → List S
  steps_of [] = []
  steps_of (none ∷ l) = steps_of l
  steps_of (some st ∷ l) = st ∷ steps_of l

module _ {S B : Type 0} where
  -- What reaches the runner while a build is under way: a step of the build, or another request.
  abbrev pub hears : List (Option S) → EtlRunner S B → EtlRunner S B
  hears [] e = e
  hears (none ∷ l) e = hears l (etl_start e).1
  hears (some st ∷ l) e = hears l (etl_step st e)

  first_of : (b : Bool) (x y : Bool × EtlRunner S B) → b ≡ true → (if b then x else y).1 ≡ x.1
  first_of b x y h = rw h refl

  hears-steps :
      (l : List (Option S)) (e : EtlRunner S B)
      → e.running ≡ true
      → hears l e ≡ record e { steps = e.steps ++ steps_of l }
  unfolding etl_start etl_step
  hears-steps [] e h = ap (λ (l : List S). record e { steps = l }) (sym (append-nil e.steps))
  hears-steps (none ∷ l) e h =
      ap (λ e'. hears l e') (first_of e.running (false, e) (true, _) h) ∙ hears-steps l e h
  hears-steps (some st ∷ l) e h =
      hears-steps l (record e { steps = e.steps ++ st ∷ [] }) h
      ∙ ap (λ (k : List S). record e { steps = k }) (append_assoc e.steps (st ∷ []) (steps_of l))

  error_kept :
      (err : Text) (e : EtlRunner S B)
      → e.err ≡ []
      → (if is_empty err then e else record e { err = err }) ≡ record e { err = err }
  error_kept [] e h = ap (λ (t : Text). record e { err = t }) h
  error_kept (c ∷ err) e h = refl

  -- A request on an idle runner starts a build. Until it ends, the runner holds the steps that the
  -- build reported, in order, and other requests start nothing and change nothing. The end keeps
  -- the steps, and shows the result and the error, if there is one.
  pub etl_end-steps :
      (l : List (Option S)) (res : Option B) (err : Text) (e : EtlRunner S B)
      → e.running ≡ false
      → ((etl_start e).0 ≡ true)
        × (etl_end res err (hears l (etl_start e).1)
            ≡ record { running = false; steps = steps_of l; err = err; result = res })
  unfolding etl_start etl_end
  etl_end-steps l res err e h =
      let heard =
        hears-steps l (record { running = true; steps = []; err = []; result = none }) refl in
      let ended : EtlRunner S B = record {
        running = false;
        steps = steps_of l;
        err = [];
        result = res;
      } in
      (rw h, rw (h, heard) (error_kept err ended refl))
