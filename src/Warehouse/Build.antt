-- ===== src/Warehouse/Build.antt =====
-- internal/warehouse/etl.go: `Build` makes a new file next to the one in use and swaps them.
-- DuckDB, the regular expressions and the texts of times are a parameter.
pub mod Swap
use duckstore.Prelude.{
  ℕ, suc, ◌+◌, Bool, true, false, List, [], ◌∷◌, ◌++◌, Option, none, some, length, drop,
  if◌then◌else◌,
}
use duckstore.Prelude.Text.Decimal.{decimal}
use duckstore.Prelude.Text.{Text, codes, has_prefix}
use duckstore.Sqlsplit.{Statement, split}

-- `type Step`; the duration as the texts of the metadata have it.
pub record Step : Type 0 where
  pub label : Text
  pub rows : ℕ
  pub seconds : Text

-- A warehouse file `W` and a Parquet directory `P`, and what DuckDB makes of them.
pub record Engine : Type 1 where
  pub W : Type 0
  pub P : Type 0
  -- a new file, an empty directory
  pub create : W
  pub directory : P
  -- one statement on the file and the new Parquet directory: the rows affected, or an error
  pub exec : Text → W × Option P → Option (ℕ × W × Option P)
  -- `createTableRe`, and the count of the rows of a table
  pub created : Text → Option Text
  pub count : Text → W → Option ℕ
  -- the highest number of an order in the store
  pub watermark : W → Option ℕ
  -- the texts of durations
  pub seconds : Text → W → Text
  pub build_seconds : W → Text

pub data BuildError : Type 0 where
  etl_running failed : BuildError

-- The data directory: the two names of the file and of the Parquet directory, and whether a
-- process holds the lock. `faults` are the file operations to come that fail.
pub record Disk (W P : Type 0) : Type 0 where
  pub final : Option W
  pub building : Option W
  pub wal : Bool
  pub parquet : Option P
  pub parquet_building : Option P
  pub locked : Bool
  pub faults : List Bool
  -- `res.Steps`
  pub steps : List Step

pub data Answer (A : Type 0) : Type 0 where
  ok : A → Answer A
  err : BuildError → Answer A

abbrev pub Io : Type 0 → Type 0 → Type 0 → Type 0
Io W P A = Disk W P → Answer A × Disk W P

infixl 5 ◌>>=◌ ◌>>◌
unfoldable pub ◌>>=◌ : {W P A B : Type 0} → Io W P A → (A → Io W P B) → Io W P B
◌>>=◌ m f s = let (r, s') = m s in elim r [ ok a ↦ f a s' | err x ↦ (err x, s') ]

abbrev pub ◌>>◌ : {W P A B : Type 0} → Io W P A → Io W P B → Io W P B
m >> k = m >>= λ _. k

abbrev pub next_fault : List Bool → Bool
next_fault [] = false
next_fault (b ∷ _) = b

abbrev pub later_faults : List Bool → List Bool
later_faults [] = []
later_faults (_ ∷ bs) = bs

module _ {W P : Type 0} where
  abbrev pub pure : {A : Type 0} → A → Io W P A
  pure a s = (ok a, s)

  -- A file operation, which fails or makes its change.
  unfoldable pub file_op : (Disk W P → Disk W P) → Io W P (Unit {0})
  file_op f s =
      let s' = record s { faults = later_faults s.faults } in
      if next_fault s.faults then (err failed, s') else (ok tt, f s')

  -- `os.MkdirAll(cfg.DataDir)`
  abbrev pub make_data_dir : Io W P (Unit {0})
  make_data_dir = file_op (λ s. s)

  -- The two `os.Remove` and the `os.RemoveAll`.
  abbrev pub remove_leftovers : Io W P (Unit {0})
  remove_leftovers =
      file_op (λ s. record s { building = none })
      >> file_op (λ s. record s { wal = false })
      >> file_op (λ s. record s { parquet_building = none })

  -- The new Parquet directory takes the place of the old one.
  unfoldable pub swap_parquet : Io W P (Unit {0})
  swap_parquet = file_op (λ s. record s { parquet = none }) >>= λ _.
      file_op (λ s. record s { parquet = s.parquet_building; parquet_building = none })

  -- The renames and the removal at the end of `Build`.
  unfoldable pub swap : Io W P (Unit {0})
  swap = file_op (λ s. record s { final = s.building; building = none }) >>= λ _. swap_parquet

abbrev pub or_failed : {W P A : Type 0} → Option A → Io W P A
or_failed none s = (err failed, s)
or_failed (some a) s = (ok a, s)

-- `strings.ReplaceAll`, for an `old` that is not empty; `skip` counts what a match still covers.
unfoldable pub replace_from : ℕ → Text → Text → Text → Text
replace_from skip old new [] = []
replace_from ℕ.zero old new (c ∷ s) =
    let matched = new ++ replace_from (length (drop 1 old)) old new s in
    let kept = c ∷ replace_from 0 old new s in if has_prefix (c ∷ s) old then matched else kept
replace_from (ℕ.suc skip) old new (c ∷ s) = replace_from skip old new s

-- `quote`
unfoldable pub quote : Text → Text
quote s = b'\'' ∷ replace_from 0 (codes "'") (codes "''") s ++ b'\'' ∷ []

-- `CREATE TABLE AS` does not report a row count.
abbrev pub row_count : (e : Engine) → ℕ → Option Text → e.W → Option ℕ
row_count e n none w = some n
row_count e n (some table) w = e.count table w

abbrev pub or_create {ℓ} : {A : Type ℓ} → A → Option A → A
or_create d none = d
or_create d (some a) = a

abbrev pub labelled : List Statement → List (Text × Text)
labelled [] = []
labelled (st ∷ sts) = (st.label, st.sql) ∷ labelled sts

abbrev pub unlabelled : List Text → List (Text × Text)
unlabelled [] = []
unlabelled (q ∷ qs) = ([], q) ∷ unlabelled qs

-- A step with a label is recorded.
abbrev pub with_step : Text → ℕ → Text → List Step → List Step
with_step [] rows seconds steps = steps
with_step (c ∷ label) rows seconds steps =
    steps ++ record { label = c ∷ label; rows = rows; seconds = seconds } ∷ []

abbrev pub in_dir : Text → Text → Text
in_dir dir name = dir ++ (codes "/" ++ name)

-- The statements of `setup`.
pub setup : Text → List Text
setup postgres_url =
    codes "SET TimeZone = 'UTC'"
    ∷ codes "INSTALL postgres"
    ∷ codes "LOAD postgres"
    ∷ (codes "ATTACH " ++ (quote postgres_url ++ codes " AS pg (TYPE postgres, READ_ONLY)"))
    ∷ []

-- `exports`, into the directory `dir`.
pub exports : Text → List (Text × Text)
exports dir =
    (
      codes "parquet: fact_sales (partitioned)",
      codes
            "COPY (SELECT *, year(order_date) AS year, month(order_date) AS month FROM dw.fact_sales) TO "
          ++ (quote (in_dir dir (codes "fact_sales"))
              ++ codes " (FORMAT parquet, PARTITION_BY (year, month), COMPRESSION zstd)"),
    )
    ∷ (
      codes "parquet: fact_orders",
      codes "COPY dw.fact_orders TO "
          ++ (quote (in_dir dir (codes "fact_orders.parquet"))
              ++ codes " (FORMAT parquet, COMPRESSION zstd)"),
    )
    ∷ (
      codes "parquet: dim_product",
      codes "COPY dw.dim_product TO "
          ++ (quote (in_dir dir (codes "dim_product.parquet")) ++ codes " (FORMAT parquet)"),
    )
    ∷ (
      codes "parquet: dim_customer",
      codes "COPY dw.dim_customer TO "
          ++ (quote (in_dir dir (codes "dim_customer.parquet")) ++ codes " (FORMAT parquet)"),
    )
    ∷ (
      codes "parquet: dim_category",
      codes "COPY dw.dim_category TO "
          ++ (quote (in_dir dir (codes "dim_category.parquet")) ++ codes " (FORMAT parquet)"),
    )
    ∷ []

-- The loop over `res.Steps`, from the index `i`.
pub step_inserts : ℕ → List Step → List Text
step_inserts i [] = []
step_inserts i (st ∷ sts) =
    (codes "INSERT INTO dw.etl_steps VALUES ("
      ++ (decimal (i + 1)
          ++ (codes ", "
              ++ (quote st.label
                  ++ (codes ", "
                      ++ (decimal st.rows ++ (codes ", " ++ (st.seconds ++ codes ")"))))))))
    ∷ step_inserts (suc i) sts

-- `meta`; white space in the first statement is reduced to single spaces.
pub meta : ℕ → Text → List Step → List Text
meta max_order_id build_seconds steps =
    (codes "CREATE TABLE dw.etl_info AS SELECT now()::TIMESTAMP AS built_at, "
        ++ (decimal max_order_id
            ++ (codes "::BIGINT AS max_order_id, "
                ++ (build_seconds
                    ++ codes
                        " AS build_seconds, (SELECT max(placed_at) FROM dw.fact_orders) AS data_until"))))
      ∷ codes
          "CREATE TABLE dw.etl_steps (step_no INTEGER, label VARCHAR, row_count BIGINT, seconds DOUBLE)"
      ∷ step_inserts 0 steps
    ++ codes "DETACH pg" ∷ codes "CHECKPOINT" ∷ []

module _ (e : Engine) where
  open e use {W, P}

  -- `run`
  unfoldable pub run : Text × Text → Io W P (Unit {0})
  run (label, q) s =
      let file = or_create e.create s.building in
      (or_failed (e.exec q (file, s.parquet_building)) >>= λ done.
      let s' : Disk W P → Disk W P =
        λ d. record d { building = some done.1; parquet_building = done.2 } in
      λ d.
        (or_failed (row_count e done.0 (e.created q) done.1) >>= λ rows d'.
        (ok tt, record d' { steps = with_step label rows (e.seconds q file) d'.steps }))
          (s' d))
        s

  unfoldable pub run_all : List (Text × Text) → Io W P (Unit {0})
  run_all [] = pure tt
  run_all (q ∷ qs) = run q >> run_all qs

  -- The files of package etl, in the order of their names.
  unfoldable pub run_scripts : Text → List Text → Io W P (Unit {0})
  run_scripts max_order_id [] = pure tt
  run_scripts max_order_id (script ∷ scripts) =
      (or_failed (split (replace_from 0 (codes "{{MAX_ORDER_ID}}") max_order_id script)) >>= λ sts.
      run_all (labelled sts))
      >> run_scripts max_order_id scripts

  -- From the new file on, until it is closed.
  unfoldable pub fill : Text → Text → List Text → Io W P ℕ
  unfolding setup exports meta
  fill postgres_url data_dir scripts = do
    file_op (λ s. record s { building = some e.create })
    run_all (unlabelled (setup postgres_url))
    max_order_id ← λ s. or_failed (e.watermark (or_create e.create s.building)) s
    run_scripts (decimal max_order_id) scripts
    file_op (λ s. record s { parquet_building = some (or_create e.directory s.parquet_building) })
    run_all (exports (in_dir data_dir (codes "parquet.building")))
    λ s.
        run_all
          (unlabelled (meta max_order_id (e.build_seconds (or_create e.create s.building)) s.steps))
          s
    file_op (λ s. s)
    pure max_order_id

  -- `Build`, while it holds the lock.
  unfoldable pub work : Text → Text → List Text → Io W P ℕ
  work postgres_url data_dir scripts = do
    remove_leftovers
    max_order_id ← fill postgres_url data_dir scripts
    swap
    pure max_order_id

  -- `lockFile`: the lock is held by another process, or taken; then `Build` until it returns and
  -- `unlock`.
  unfoldable pub build : Text → Text → List Text → Io W P ℕ
  build postgres_url data_dir scripts s =
      (make_data_dir >>= λ _ s1.
      let taken = record s1 { locked = true; steps = [] } in
      let (r, s2) = work postgres_url data_dir scripts taken in
      if s1.locked then (err etl_running, s1) else (r, record s2 { locked = false }))
        s
