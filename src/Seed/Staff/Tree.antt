-- ===== src/Seed/Staff/Tree.antt =====
-- internal/seed/generator.go: the employees are a tree below the first one.
use duckstore.Prelude.{
  ℕ, zero, suc, ◌+◌, ◌≤◌, ◌≡◌, sym, ap, subst, List, [], ◌∷◌, ◌++◌, arith, length, length-append,
}
use duckstore.Prelude.Text.{Text}
use duckstore.Seed.Staff.{
  Employee, Staff, Region, times, for_each, hire, no_more, sales_region, operations_region,
  purchasing, support, finance, departments, vps, build_employees, warehouse_team,
}

-- From `n` employees on: the ids go up by 1, every manager stands before, and only the first
-- employee of all has none.
abbrev pub IsTree : ℕ → List Employee → Type 0
IsTree n [] = Unit {0}
IsTree n (e ∷ es) = (e.id ≡ n + 1) × (e.manager ≤ n) × (e.manager ≡ 0 → n ≡ 0) × IsTree (n + 1) es

IsTree-append :
    (n : ℕ) (es : List Employee) (e : Employee)
    → IsTree n es
    → (e.id ≡ n + length es + 1)
    → (e.manager ≤ n + length es)
    → (e.manager ≡ 0 → n + length es ≡ 0)
    → IsTree n (es ++ e ∷ [])
IsTree-append n [] e h i m z = (omega arith, omega arith, (λ q. let q' = z q in omega arith), tt)
IsTree-append n (x ∷ es) e h i m z = (
  h.0,
  h.1,
  h.2,
  IsTree-append (n + 1) es e h.3 (omega arith) (omega arith) (λ q. let q' = z q in omega arith),
)

-- A part of the build under a manager: the employees stay a tree, and none goes.
abbrev pub Keeps : ℕ → (Staff → Staff) → Type 0
Keeps m f =
    (s : Staff)
    → IsTree 0 s.employees
    → m ≤ length s.employees
    → IsTree 0 (f s).employees × (length s.employees ≤ length (f s).employees)

times-Keeps : (m n : ℕ) (f : Staff → Staff) → Keeps m f → Keeps m (times n f)
unfolding times
times-Keeps m zero f k s h l = (h, omega arith)
times-Keeps m (suc n) f k s h l =
    let (h1, l1) = k s h l in
    let (h2, l2) = times-Keeps m n f k (f s) h1 (omega arith) in (h2, omega arith)

for_each-Keeps :
    {A : Type 0} (m : ℕ) (l : List A) (f : A → Staff → Staff)
    → ((a : A) → Keeps m (f a))
    → Keeps m (for_each l f)
unfolding for_each
for_each-Keeps m [] f k s h l = (h, omega arith)
for_each-Keeps m (a ∷ rest) f k s h l =
    let (h1, l1) = k a s h l in
    let (h2, l2) = for_each-Keeps m rest f k (f a s) h1 (omega arith) in (h2, omega arith)

hire-Keeps :
    (m : ℕ) (title dept region : Text) (warehouse : ℕ) (next : ℕ → Staff → Staff)
    → 1 ≤ m
    → ((id : ℕ) → m ≤ id → 1 ≤ id → Keeps id (next id))
    → Keeps m (hire m title dept region warehouse next)
unfolding hire
hire-Keeps m title dept region warehouse next p k s h l =
    let e : Employee = record {
      id = length s.employees + 1;
      manager = m;
      title = title;
      dept = dept;
      region = region;
      warehouse = warehouse;
    } in
    let more = length-append s.employees (e ∷ []) in
    let tree =
      IsTree-append 0 s.employees e h (omega arith) (omega arith) (λ q. absurd (omega arith)) in
    let (h1, l1) =
      k (length s.employees + 1) (omega arith) (omega arith)
        (record s { employees = s.employees ++ e ∷ [] }) tree (omega arith) in
    (h1, omega arith)

done-Keeps : (id : ℕ) → Keeps id (no_more id)
done-Keeps id s h l = (h, omega arith)

sales_region-Keeps : (vp : ℕ) (r : Region) → 1 ≤ vp → Keeps vp (sales_region vp r)
sales_region-Keeps vp r p = hire-Keeps vp _ _ _ _ _ p (λ dir _ q. times-Keeps dir 3 _ (
    hire-Keeps dir _ _ _ _ _ q (λ mgr _ q'.
      times-Keeps mgr 6 _ (hire-Keeps mgr _ _ _ _ _ q' (λ id _ _ s h l. (h, omega arith))))))

warehouse_team-Keeps :
    (region : Text) (warehouse mgr : ℕ) → 1 ≤ mgr → Keeps mgr (warehouse_team region warehouse mgr)
warehouse_team-Keeps region warehouse mgr p s h l =
    times-Keeps mgr 2 _
      (hire-Keeps mgr _ _ _ _ _ p
        (λ sup _ q. times-Keeps sup 6 _ (hire-Keeps sup _ _ _ _ _ q (λ id _ _. done-Keeps id))))
      _ h l

operations_region-Keeps : (vp : ℕ) (r : Region) → 1 ≤ vp → Keeps vp (operations_region vp r)
operations_region-Keeps vp r p = hire-Keeps vp _ _ _ _ _ p (λ dir _ q.
    for_each-Keeps dir r.1 _ (λ warehouse.
      hire-Keeps dir _ _ _ _ _ q (λ mgr _ q'. warehouse_team-Keeps r.0 warehouse mgr q')))

purchasing-Keeps : (vp : ℕ) → 1 ≤ vp → Keeps vp (purchasing vp)
purchasing-Keeps vp p = times-Keeps vp 2 _ (
    hire-Keeps vp _ _ _ _ _ p
      (λ mgr _ q. times-Keeps mgr 5 _ (hire-Keeps mgr _ _ _ _ _ q (λ id _ _. done-Keeps id))))

support-Keeps : (vp : ℕ) → 1 ≤ vp → Keeps vp (support vp)
support-Keeps vp p = times-Keeps vp 2 _ (
    hire-Keeps vp _ _ _ _ _ p (λ mgr _ q. times-Keeps mgr 3 _ (
      hire-Keeps mgr _ _ _ _ _ q (λ lead _ q'.
        times-Keeps lead 8 _ (hire-Keeps lead _ _ _ _ _ q' (λ id _ _. done-Keeps id))))))

finance-Keeps : (cfo : ℕ) → 1 ≤ cfo → Keeps cfo (finance cfo)
finance-Keeps cfo p =
    hire-Keeps cfo _ _ _ _ _ p
      (λ ctrl _ q. times-Keeps ctrl 4 _ (hire-Keeps ctrl _ _ _ _ _ q (λ id _ _. done-Keeps id)))

departments-Keeps :
    (regions : List Region) (a b c d e : ℕ)
    → 1 ≤ a
    → a ≤ b
    → b ≤ c
    → c ≤ d
    → d ≤ e
    → Keeps e (departments regions a b c d e)
departments-Keeps regions a b c d e p ab bc cd de s h l =
    let s1 = for_each regions (sales_region a) s in
    let (h1, l1) =
      for_each-Keeps a regions (sales_region a) (λ r. sales_region-Keeps a r p) s h (omega arith) in
    let s2 = for_each regions (operations_region b) s1 in
    let (h2, l2) =
      for_each-Keeps b regions (operations_region b)
        (λ r. operations_region-Keeps b r (omega arith)) s1 h1 (omega arith) in
    let (h3, l3) = purchasing-Keeps c (omega arith) s2 h2 (omega arith) in
    let (h4, l4) = support-Keeps d (omega arith) (purchasing c s2) h3 (omega arith) in
    let (h5, l5) = finance-Keeps e (omega arith) (support d (purchasing c s2)) h4 (omega arith) in
    (h5, omega arith)

-- A further report of the same manager, who stands before the last one hired.
hire_next-Keeps :
    (m k : ℕ) (title dept region : Text) (warehouse : ℕ) (next : ℕ → Staff → Staff)
    → 1 ≤ m
    → m ≤ k
    → ((id : ℕ) → k ≤ id → Keeps id (next id))
    → Keeps k (hire m title dept region warehouse next)
unfolding hire
hire_next-Keeps m k title dept region warehouse next p le keeps s h l =
    let e : Employee = record {
      id = length s.employees + 1;
      manager = m;
      title = title;
      dept = dept;
      region = region;
      warehouse = warehouse;
    } in
    let more = length-append s.employees (e ∷ []) in
    let tree =
      IsTree-append 0 s.employees e h (omega arith) (omega arith) (λ q. absurd (omega arith)) in
    let (h1, l1) =
      keeps (length s.employees + 1) (omega arith) (record s { employees = s.employees ++ e ∷ [] })
        tree (omega arith) in
    (h1, omega arith)

vps-Keeps : (regions : List Region) (ceo : ℕ) → 1 ≤ ceo → Keeps ceo (vps regions ceo)
vps-Keeps regions ceo p = hire_next-Keeps ceo ceo _ _ _ _ _ p (omega arith) (λ a la.
    hire_next-Keeps ceo a _ _ _ _ _ p la (λ b lb.
      hire_next-Keeps ceo b _ _ _ _ _ p (omega arith) (λ c lc.
        hire_next-Keeps ceo c _ _ _ _ _ p (omega arith) (λ d ld.
          hire_next-Keeps ceo d _ _ _ _ _ p (omega arith)
            (λ e le. departments-Keeps regions a b c d e (omega arith) lb lc ld le)))))

first_hire-IsTree :
    (title dept : Text) (next : ℕ → Staff → Staff) (s : Staff)
    → ((id : ℕ) → 1 ≤ id → Keeps id (next id))
    → s.employees ≡ []
    → IsTree 0 (hire 0 title dept [] 0 next s).employees
unfolding hire
first_hire-IsTree title dept next s keeps none_yet =
    let e : Employee = record {
      id = length s.employees + 1;
      manager = 0;
      title = title;
      dept = dept;
      region = [];
      warehouse = 0;
    } in
    let more = length-append s.employees (e ∷ []) in
    let empty : length s.employees ≡ 0 = ap (λ l. length l) none_yet in
    let tree =
      IsTree-append 0 s.employees e (subst (IsTree 0) (sym none_yet) tt) (omega arith) (omega arith)
        (λ _. omega arith) in
    (keeps (length s.employees + 1) (omega arith) (record s { employees = s.employees ++ e ∷ [] })
      tree (omega arith)).0

-- From no employees on, whatever the regions and their warehouses are, the employees have the ids
-- 1, 2, 3 and so on, every manager has a smaller id than whom he manages, and only the first
-- employee has no manager: they are one tree.
pub build_employees-IsTree :
    (regions : List Region) (s : Staff)
    → s.employees ≡ []
    → IsTree 0 (build_employees regions s).employees
unfolding build_employees
build_employees-IsTree regions s e = first_hire-IsTree _ _ (vps regions) s (vps-Keeps regions) e
