-- ===== src/Web/Runs.antt =====
-- internal/web/race.go and internal/web/etl.go: a race of the engines and an ETL run take long, and
-- two requests may come at once. A handler starts its run under the lock and ends it under the
-- lock; in between, other requests go on.
pub mod Single
use duckstore.Prelude.{
  ℕ, ◌+◌, ◌≡◌, Bool, true, false, List, [], ◌∷◌, ◌++◌, Option, none, some, if◌then◌else◌,
}
use duckstore.Prelude.Text.{Text, codes, equal, is_empty}

-- `Scenario`, as far as the handler reads it.
pub record Scenario : Type 0 where
  pub id : Text
  pub title : Text

-- `raceState`, with the result of each scenario by its id.
pub record RaceState (R : Type 0) : Type 0 where
  pub running : Text
  pub results : List (Text × R)

-- What `raceRun` does first: the scenario is unknown, another runs, or this one starts.
pub data Start : Type 0 where
  not_found : Start
  busy : Text → Start
  started : Scenario → Start

-- `bench.Find`
unfoldable pub find : Text → List Scenario → Option Scenario
find id [] = none
find id (s ∷ ss) = if equal s.id id then some s else find id ss

module _ {R : Type 0} where
  abbrev pub begin_race : Option Scenario → RaceState R → Start × RaceState R
  begin_race none s = (not_found, s)
  begin_race (some sc) s =
      if is_empty s.running
      then (started sc, record s { running = sc.title })
      else (busy s.running, s)

  -- `raceRun` up to the call of `bench.Run`.
  unfoldable pub race_start : List Scenario → Text → RaceState R → Start × RaceState R
  race_start scenarios id s = begin_race (find id scenarios) s

  abbrev pub with_result : Text → Option R → List (Text × R) → List (Text × R)
  with_result id none results = results
  with_result id (some r) results = (id, r) ∷ results

  -- `raceRun` behind the call, which gave a result or an error. The newest result stands first.
  unfoldable pub race_end : Scenario → Option R → RaceState R → RaceState R
  race_end sc r s = record s { running = []; results = with_result sc.id r s.results }

-- The fields of `etlRunner` that are written, with the steps reported so far.
pub record EtlRunner (S B : Type 0) : Type 0 where
  pub running : Bool
  pub steps : List S
  pub err : Text
  pub result : Option B

module _ {S B : Type 0} where
  -- `etlStart`: whether a build was started.
  unfoldable pub etl_start : EtlRunner S B → Bool × EtlRunner S B
  etl_start e =
      if e.running
      then (false, e)
      else (true, record { running = true; steps = []; err = []; result = none })

  -- The function given to `warehouse.Build`.
  unfoldable pub etl_step : S → EtlRunner S B → EtlRunner S B
  etl_step st e = record e { steps = e.steps ++ st ∷ [] }

  -- The end of the goroutine; `res` is nil when the build failed, and `err` is empty for none.
  unfoldable pub etl_end : Option B → Text → EtlRunner S B → EtlRunner S B
  etl_end res err e =
      let e' = record e { running = false; result = res } in
      if is_empty err then e' else record e' { err = err }
