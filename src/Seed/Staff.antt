-- ===== src/Seed/Staff.antt =====
-- internal/seed/generator.go: the employees and who manages whom. Names, dates and salaries are
-- random and are left out; the regions and the warehouses come from internal/seed/reference.go.
pub mod Tree
use duckstore.Prelude.{ℕ, zero, suc, ◌+◌, Bool, List, [], ◌∷◌, ◌++◌, length}
use duckstore.Prelude.Text.{Text, codes}

-- `employee`; a manager of 0 is NULL.
pub record Employee : Type 0 where
  pub id : ℕ
  pub manager : ℕ
  pub title : Text
  pub dept : Text
  pub region : Text
  pub warehouse : ℕ

-- The fields of `gen` that are written: the lists of account executives and of warehouse managers
-- hold the region and the warehouse of each.
pub record Staff : Type 0 where
  pub employees : List Employee
  pub account_execs : List (Text × ℕ)
  pub wh_managers : List (ℕ × ℕ)

-- A region with the ids of its warehouses (`whByRegion`).
abbrev pub Region : Type 0
Region = Text × List ℕ

unfoldable pub times : ℕ → (Staff → Staff) → Staff → Staff
times zero f s = s
times (suc n) f s = times n f (f s)

unfoldable pub for_each {ℓ} : {A : Type ℓ} → List A → (A → Staff → Staff) → Staff → Staff
for_each [] f s = s
for_each (a ∷ rest) f s = for_each rest f (f a s)

-- `add`; what is done next gets the id.
unfoldable pub hire : ℕ → Text → Text → Text → ℕ → (ℕ → Staff → Staff) → Staff → Staff
hire manager title dept region warehouse next s =
    let id = length s.employees + 1 in
    next id (record s {
      employees =
          s.employees
          ++ record {
            id = id;
            manager = manager;
            title = title;
            dept = dept;
            region = region;
            warehouse = warehouse;
          }
            ∷ [];
    })

abbrev pub no_more : ℕ → Staff → Staff
no_more id s = s

abbrev pub note_exec : Text → ℕ → Staff → Staff
note_exec region id s = record s { account_execs = s.account_execs ++ (region, id) ∷ [] }

abbrev pub note_manager : ℕ → ℕ → Staff → Staff
note_manager warehouse id s = record s { wh_managers = s.wh_managers ++ (warehouse, id) ∷ [] }

abbrev pub sales_team : Text → ℕ → Staff → Staff
sales_team region mgr =
    times 6 (hire mgr (codes "Account Executive") (codes "Sales") region 0 (note_exec region))

abbrev pub sales_region : ℕ → Region → Staff → Staff
sales_region vp r =
    hire vp (codes "Sales Director, " ++ r.0) (codes "Sales") r.0 0
      (λ dir. times 3 (hire dir (codes "Sales Manager") (codes "Sales") r.0 0 (sales_team r.0)))

abbrev pub shift : Text → ℕ → ℕ → Staff → Staff
shift region warehouse sup =
    times 6 (hire sup (codes "Warehouse Associate") (codes "Operations") region warehouse no_more)

abbrev pub warehouse_team : Text → ℕ → ℕ → Staff → Staff
warehouse_team region warehouse mgr s =
    times 2
      (hire mgr (codes "Shift Supervisor") (codes "Operations") region warehouse
        (shift region warehouse))
      (note_manager warehouse mgr s)

abbrev pub operations_region : ℕ → Region → Staff → Staff
operations_region vp r =
    hire vp (codes "Operations Director, " ++ r.0) (codes "Operations") r.0 0 (λ dir.
      for_each r.1 (λ warehouse.
        hire dir (codes "Warehouse Manager") (codes "Operations") r.0 warehouse
          (warehouse_team r.0 warehouse)))

abbrev pub purchasing : ℕ → Staff → Staff
purchasing vp = times 2 (
    hire vp (codes "Purchasing Manager") (codes "Purchasing") [] 0
      (λ mgr. times 5 (hire mgr (codes "Buyer") (codes "Purchasing") [] 0 no_more)))

abbrev pub support : ℕ → Staff → Staff
support vp = times 2 (
    hire vp (codes "Support Manager") (codes "Support") [] 0 (λ mgr. times 3 (
      hire mgr (codes "Support Team Lead") (codes "Support") [] 0
        (λ lead. times 8 (hire lead (codes "Support Agent") (codes "Support") [] 0 no_more)))))

abbrev pub finance : ℕ → Staff → Staff
finance cfo =
    hire cfo (codes "Controller") (codes "Finance") [] 0
      (λ ctrl. times 4 (hire ctrl (codes "Accountant") (codes "Finance") [] 0 no_more))

-- The part of `buildWarehousesAndEmployees` behind the first six.
abbrev pub departments : List Region → ℕ → ℕ → ℕ → ℕ → ℕ → Staff → Staff
departments regions vp_sales vp_ops vp_purch vp_support cfo s = finance cfo (
    support vp_support (
      purchasing vp_purch
        (for_each regions (operations_region vp_ops) (for_each regions (sales_region vp_sales) s))))

abbrev pub vps : List Region → ℕ → Staff → Staff
vps regions ceo = hire ceo (codes "VP of Sales") (codes "Sales") [] 0 (λ vp_sales.
    hire ceo (codes "VP of Operations") (codes "Operations") [] 0 (λ vp_ops.
      hire ceo (codes "VP of Purchasing") (codes "Purchasing") [] 0 (λ vp_purch.
        hire ceo (codes "VP of Customer Support") (codes "Support") [] 0 (λ vp_support.
          hire ceo (codes "Chief Financial Officer") (codes "Finance") [] 0
            (λ cfo. departments regions vp_sales vp_ops vp_purch vp_support cfo)))))

-- `buildWarehousesAndEmployees`
unfoldable pub build_employees : List Region → Staff → Staff
build_employees regions =
    hire 0 (codes "Chief Executive Officer") (codes "Executive") [] 0 (vps regions)
