-- ===== src/Warehouse/Tests.antt =====
-- The theorems on internal/warehouse at a small input.
use duckstore.Prelude.{ℕ, ◌≡◌, refl, All, suc, [], ◌∷◌, none, some, false}
use duckstore.Prelude.Text.{codes}
use duckstore.Warehouse.Build.{Engine, Disk, build}
use duckstore.Warehouse.Build.Swap.{Built, build-Built}
use duckstore.Warehouse.Shared.{FileInfo, Shared, with_db, is_same, exchange}
use duckstore.Warehouse.Shared.Handles.{
  World, Ran, fresh_start, read_begins, read_ends, opens, exchanges, closes_old, HasPlace, count,
  Ran-HasPlace, Ran-readers,
}

-- A database that counts the statements run on it.
abbrev counting : Engine
counting = record {
  W = ℕ;
  P = ℕ;
  create = 0;
  directory = 0;
  exec = λ q f. some (1, suc f.0, f.1);
  created = λ q. none;
  count = λ t w. some w;
  watermark = λ w. some 99;
  seconds = λ q w. codes "0.001";
  build_seconds = λ w. codes "0.100";
}

abbrev disk_example : Disk ℕ ℕ
disk_example = record {
  final = some 5;
  building = some 1;
  wal = false;
  parquet = some 5;
  parquet_building = none;
  locked = false;
  faults = [];
  steps = [];
}

build-Built_example :
    Built counting
      (codes "postgres://")
      (codes "data")
      (codes "SELECT {{MAX_ORDER_ID}};" ∷ [])
      disk_example
      (build counting
        (codes "postgres://")
        (codes "data")
        (codes "SELECT {{MAX_ORDER_ID}};" ∷ [])
        disk_example)
build-Built_example =
    build-Built counting (codes "postgres://") (codes "data")
      (codes "SELECT {{MAX_ORDER_ID}};" ∷ []) disk_example

abbrev nothing_open : Shared
nothing_open = record { db = none; stat = none; pg_err = none; opened = 0 }

abbrev first_file : FileInfo
first_file = record { id = 3; mod_time = 50 }

abbrev second_file : FileInfo
second_file = record { id = 4; mod_time = 90 }

-- Database 0 was read and exchanged for 1 and closed; a reader now uses 1, and 2 is open and waits.
abbrev world_example : World
world_example = record {
  shared = record { db = some 1; stat = some second_file; pg_err = none; opened = 95 };
  readers = 1 ∷ [];
  fresh = 2 ∷ [];
  old = [];
  closed = 0 ∷ [];
  next = 3;
}

abbrev ran_example : Ran world_example
unfolding exchange with_db
ran_example =
    let shared_0 =
      exchanges [] 0 [] first_file none 60 (opens (fresh_start nothing_open refl)) refl refl in
    let read_0 = read_ends [] 0 [] (read_begins 0 shared_0 refl) refl in
    let shared_1 = exchanges [] 1 [] second_file none 95 (opens read_0) refl refl in
    opens (read_begins 1 (closes_old [] 0 [] shared_1 refl) refl)

Ran-HasPlace_example : HasPlace world_example
Ran-HasPlace_example = Ran-HasPlace world_example ran_example

Ran-readers_example : All (λ d. count d (0 ∷ []) ≡ 0) (1 ∷ [])
Ran-readers_example = Ran-readers world_example ran_example

abbrev first_shared : Shared
first_shared = record { db = some 0; stat = some first_file; pg_err = none; opened = 60 }

different_file : is_same second_file first_shared ≡ false
unfolding is_same
different_file = refl
