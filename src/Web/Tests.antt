-- ===== src/Web/Tests.antt =====
-- The theorems on the query log and the runs at small inputs.
use duckstore.Prelude.{replicate, ℕ, ◌≡◌, refl, List, [], ◌∷◌}
use duckstore.Prelude.Text.{codes, equal}
use duckstore.Web.Catalog.{category_page}
use duckstore.Web.Catalog.Paged.{pages_from, pages_from-all}
use duckstore.Web.QueryLog.{QueryEntry, PrevStore, put, take_entry}
use duckstore.Web.QueryLog.Kept.{take_entry-put}
use duckstore.Web.Runs.{Scenario, RaceState, find, race_start}
use duckstore.Web.Runs.Single.{Raced, idle, request, IsSingle, Raced-IsSingle}

abbrev one_entry : List QueryEntry
one_entry =
    record {
      engine = codes "postgres";
      title = codes "Cart";
      sql = codes "SELECT 1";
      args = [];
      duration = 5;
      rows = 1;
      err = [];
    }
    ∷ []

abbrev kept_before : PrevStore
kept_before = (codes "t0", record { action = codes "POST /a"; entries = []; at = 10 }) ∷ []

take_entry-put_example :
    let kept : PrevStore = put 400000000000 (codes "t1") (codes "POST /b") one_entry kept_before in
    ((take_entry (codes "t1") kept).0 ≡ (codes "POST /b", one_entry))
    × ((take_entry (codes "t1") (take_entry (codes "t1") kept).1).0 ≡ ([], []))
take_entry-put_example =
    take_entry-put 400000000000 (codes "t1") (codes "POST /b") one_entry kept_before

abbrev two_scenarios : List Scenario
two_scenarios =
    record { id = codes "a"; title = codes "Scan" }
    ∷ record { id = codes "b"; title = codes "Lookup" }
    ∷ []

abbrev no_race : RaceState ℕ
no_race = record { running = []; results = [] }

-- A race of each scenario is asked for; only the first one starts.
abbrev after_two : RaceState ℕ
after_two =
    (race_start two_scenarios (codes "b") (race_start two_scenarios (codes "a") no_race).1).1

abbrev raced_two :
    Raced two_scenarios no_race after_two (record { id = codes "a"; title = codes "Scan" } ∷ [])
unfolding race_start find equal
raced_two = request (codes "b") (request (codes "a") idle)

Raced-IsSingle_example :
    IsSingle (after_two.running) (record { id = codes "a"; title = codes "Scan" } ∷ [])
Raced-IsSingle_example =
    Raced-IsSingle two_scenarios no_race after_two _ (refl, (refl, tt)) refl raced_two

abbrev thirty : List ℕ
thirty = replicate 30 7

pages_from-all_example : pages_from (category_page 1 thirty).pages 1 thirty ≡ thirty
pages_from-all_example = pages_from-all thirty

two_pages : (category_page 2 thirty).pages ≡ 2
unfolding category_page
two_pages = refl
