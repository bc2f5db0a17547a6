-- ===== src/Store/Tx.antt =====
-- Statements and transactions of internal/web over pgx. The program's database driver is a
-- sequence of faults: before each statement it may fail, as it does when the connection breaks.
-- `pgx.BeginFunc` is a parameter.
pub mod Laws
pub mod Commits
use duckstore.Prelude.{
  ℕ, ◌+◌, ◌%◌, ◌≡◌, refl, Bool, true, false, List, [], ◌∷◌, Option, none, some, if◌then◌else◌, ap,
  ◌∙◌, sym,
}
use duckstore.Prelude.Text.{Text}
use duckstore.Store.Tables.{Db}

-- The texts of `userError`, which a page shows.
pub data UserError : Type 0 where
  cart_empty : UserError
  promotion_inactive : Text → UserError
  promotion_elsewhere : Text → UserError
  no_stock : ℕ → ℕ → UserError
  only_paid only_shipped only_unshipped only_delivered all_returned : UserError

pub data Error : Type 0 where
  user : UserError → Error
  -- `pgx.ErrNoRows`
  no_rows : Error
  -- the type `notFound`
  not_found : Text → Error
  -- a constraint of the schema refuses the rows
  violation : Error
  -- the statement did not reach the database, or the answer did not come back
  connection : Error

pub data Result (A : Type 0) : Type 0 where
  ok : A → Result A
  err : Error → Result A

-- The database, the time that `now()` gives, the next values of the identity columns (which
-- Postgres does not take back), the faults to come, and the random numbers to come.
pub record World : Type 0 where
  pub db : Db
  pub now : ℕ
  pub next_cart : ℕ
  pub next_order : ℕ
  pub faults : List Bool
  pub draws : List ℕ

abbrev pub Tx : Type 0 → Type 0
Tx A = World → Result A × World

module _ {A : Type 0} where
  abbrev pub pure : A → Tx A
  pure a w = (ok a, w)

  abbrev pub fail : Error → Tx A
  fail e w = (err e, w)

infixl 5 ◌>>=◌ ◌>>◌
unfoldable pub ◌>>=◌ : {A B : Type 0} → Tx A → (A → Tx B) → Tx B
◌>>=◌ m f w = let (r, w') = m w in elim r [ ok a ↦ f a w' | err e ↦ (err e, w') ]

abbrev pub ◌>>◌ : {A B : Type 0} → Tx A → Tx B → Tx B
m >> k = m >>= λ _. k

-- `if c { return …, e }`
unfoldable pub fail_if : Bool → Error → Tx (Unit {0})
fail_if c e w = if c then (err e, w) else (ok tt, w)

abbrev pub head_fault : List Bool → Bool
head_fault [] = false
head_fault (b ∷ _) = b

abbrev pub rest {ℓ} : {A : Type ℓ} → List A → List A
rest [] = []
rest (_ ∷ l) = l

-- One statement: what it answers and the rows afterwards. A refused statement changes nothing.
unfoldable pub statement : {A : Type 0} → (Db → Result (A × Db)) → Tx A
statement f w =
    let w' = record w { faults = rest w.faults } in
    if head_fault w.faults
    then (err connection, w')
    else elim (f w.db) [ err e ↦ (err e, w') | ok (a, d) ↦ (ok a, record w' { db = d }) ]

-- A SELECT.
abbrev pub query : {A : Type 0} → (Db → A) → Tx A
query f = statement (λ d. ok (f d, d))

abbrev pub row_or : {A : Type 0} → Error → Option A → Db → Result (A × Db)
row_or e none d = err e
row_or e (some a) d = ok (a, d)

-- A SELECT that finds a row, or else the error is `e`.
abbrev pub query_or : {A : Type 0} → Error → (Db → Option A) → Tx A
query_or e f = statement (λ d. row_or e (f d) d)

-- A SELECT that must find a row (`QueryRow`, `CollectExactlyOneRow`).
abbrev pub query_row : {A : Type 0} → (Db → Option A) → Tx A
query_row f = query_or no_rows f

-- An INSERT, UPDATE or DELETE that no constraint refuses.
abbrev pub exec : (Db → Db) → Tx (Unit {0})
exec f = statement (λ d. ok (tt, f d))

-- An INSERT or UPDATE, with the constraints that hold for the rows written.
abbrev pub exec_check : (Db → Bool) → (Db → Db) → Tx (Unit {0})
exec_check allowed f = statement (λ d. if allowed d then ok (tt, f d) else err violation)

-- `pgx.BeginFunc`, which runs its function in a transaction.
pub record Begin : Type 1 where
  pub run : {A : Type 0} → Tx A → Tx A

abbrev pub head_draw : List ℕ → ℕ
head_draw [] = 0
head_draw (d ∷ _) = d

-- `rand.IntN(n)`: the next draw, below `n`.
unfoldable pub rand_int_n : ℕ → Tx ℕ
rand_int_n n w = (ok (head_draw w.draws % n), record w { draws = rest w.draws })
