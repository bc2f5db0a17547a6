-- ===== src/Web/Pages.antt =====
-- internal/web/store.go and internal/web/server.go: who is shopping, and what answers a request.
pub mod Shopping
mod Tests
use duckstore.Prelude.{
  ℕ, zero, suc, Bool, true, false, not, ◌&&◌, ◌||◌, List, [], ◌∷◌, ◌++◌, map, Option, none, some,
  length, leb, ◌==◌, if◌then◌else◌,
}
use duckstore.Prelude.Int.{ℤ, pos, negsuc}
use duckstore.Prelude.Text.Decimal.{parse_int, decimal}
use duckstore.Prelude.Text.{Text, codes, equal, is_empty, trim_space}
use duckstore.Store.Checkout.{upper}

-- The errors that `renderError` tells apart; `missing` is `pgx.ErrNoRows`.
pub data Failure : Type 0 where
  missing not_built canceled : Failure
  not_there other : Text → Failure

-- What makes a query fail: the request is gone (`context.Canceled`), or the database gives an error.
pub data Fault : Type 0 where
  gone : Fault
  broken : Text → Fault

-- A customer with the code of the country.
pub record Person : Type 0 where
  pub id : ℕ
  pub country : Text

-- The table of customers in the order of the ids, the numbers `floor(random() * max(id))` to come,
-- which queries fail and how, and the cookies of the answer: of the customer, and of the flash.
pub record Site : Type 0 where
  pub people : List Person
  pub floors : List ℕ
  pub faults : List (Option Fault)
  pub customer_cookie : Option ℕ
  pub flash_cookie : Option Text

pub data Got (A : Type 0) : Type 0 where
  failed : Failure → Got A
  got : A → Got A

abbrev pub Page : Type 0 → Type 0
Page A = Site → Got A × Site

infixl 5 ◌>>=◌
unfoldable pub ◌>>=◌ : {A B : Type 0} → Page A → (A → Page B) → Page B
◌>>=◌ m f s = let (r, s') = m s in elim r [ failed e ↦ (failed e, s') | got a ↦ f a s' ]

unfoldable pub pure : {A : Type 0} → A → Page A
pure a s = (got a, s)

unfoldable pub fail : {A : Type 0} → Failure → Page A
fail e s = (failed e, s)

abbrev pub first_fault : List (Option Fault) → Option Fault
first_fault [] = none
first_fault (f ∷ _) = f

abbrev pub other_faults : List (Option Fault) → List (Option Fault)
other_faults [] = []
other_faults (_ ∷ fs) = fs

abbrev pub error_of : Fault → Failure
error_of gone = canceled
error_of (broken t) = other t

-- A query that reads the table.
unfoldable pub ask : {A : Type 0} → (List Person → A) → Page A
ask q s =
    let s' = record s { faults = other_faults s.faults } in
    elim (first_fault s.faults) [
      | some f ↦ (failed (error_of f), s')
      | none ↦ (got (q s.people), s')
    ]

abbrev pub with_id : ℤ → List Person → Option Person
with_id (negsuc _) ps = none
with_id (pos id) [] = none
with_id (pos id) (p ∷ ps) = if p.id == id then some p else with_id (pos id) ps

abbrev pub exactly_one : Option Person → Page Person
exactly_one none = fail missing
exactly_one (some p) = pure p

-- The rows of `countries` and `currencies` that `sqlCustomer` joins are there for each customer, by
-- the foreign keys, so the JOINs drop none.
unfoldable pub load_customer : ℤ → Page Person
load_customer id = ask (with_id id) >>= exactly_one

-- `sqlRandomCustomer`
abbrev pub from_floor : ℕ → Text → List Person → Option Person
from_floor floor country [] = none
from_floor floor country (p ∷ ps) =
    if leb floor p.id && (is_empty country || equal p.country country)
    then some p
    else from_floor floor country ps

abbrev pub first_floor : List ℕ → ℕ
first_floor [] = 0
first_floor (n ∷ _) = n

abbrev other_floors : List ℕ → List ℕ
other_floors [] = []
other_floors (_ ∷ ns) = ns

-- The next random number.
unfoldable pub draw_floor : Page ℕ
draw_floor s = (got (first_floor s.floors), record s { floors = other_floors s.floors })

abbrev pub id_or : Page ℕ → Option Person → Page ℕ
id_or again none = again
id_or again (some p) = pure p.id

-- The loop of `randomCustomer`.
unfoldable pub try_random : ℕ → Text → Page ℕ
try_random zero country = fail (other (codes "no customers found; did you run `make seed`?"))
try_random (suc tries) country =
    draw_floor >>= λ floor. ask (from_floor floor country) >>= id_or (try_random tries country)

unfoldable pub random_customer : Text → Page ℕ
unfolding try_random
random_customer country = try_random 5 country

-- `setCustomerCookie`
unfoldable pub set_customer_cookie : ℕ → Page (Unit {0})
set_customer_cookie id s = (got tt, record s { customer_cookie = some id })

-- The part of `currentCustomer` behind the cookie.
unfoldable pub new_customer : Page Person
unfolding random_customer
new_customer = random_customer [] >>= λ id. set_customer_cookie id >>= λ _. load_customer (pos id)

-- `loadCustomer` found no row: another customer.
abbrev pub or_new : Got Person × Site → Got Person × Site
or_new (failed missing, s) = new_customer s
or_new (failed not_built, s) = (failed not_built, s)
or_new (failed canceled, s) = (failed canceled, s)
or_new (failed (not_there t), s) = (failed (not_there t), s)
or_new (failed (other t), s) = (failed (other t), s)
or_new (got p, s) = (got p, s)

-- `currentCustomer`, with the value of the request's cookie.
unfoldable pub current_customer : Option Text → Page Person
unfolding load_customer new_customer
current_customer none s = new_customer s
current_customer (some value) s =
    if (parse_int value).valid
    then or_new (load_customer (parse_int value).value s)
    else new_customer s

-- `view`; the title and the data only go into the template.
pub record View : Type 0 where
  pub template : Text
  pub redirect : Text
  pub flash : Text

-- What a request gets: a page with its status, a redirect, or nothing from `wrap`.
pub data Answer : Type 0 where
  page : ℕ → Text → Answer
  moved : Text → Answer
  silent : Answer

-- `renderError`
unfoldable pub render_error : Failure → Answer
render_error (not_there _) = page 404 (codes "error")
render_error missing = page 404 (codes "error")
render_error not_built = page 503 (codes "error")
render_error canceled = silent
render_error (other _) = page 500 (codes "error")

abbrev pub with_flash : Text → Site → Site
with_flash flash s = if is_empty flash then s else record s { flash_cookie = some flash }

-- The part of `wrap` behind the handler; no view is an answer that the handler wrote itself.
unfoldable pub answer : Got (Option View) × Site → Answer × Site
answer (failed e, s) = (render_error e, s)
answer (got none, s) = (silent, s)
answer (got (some v), s) =
    if is_empty v.redirect
    then (page 200 v.template, s)
    else (moved v.redirect, with_flash v.flash s)

-- `p.Customer` is none on a page that needs no customer.
abbrev pub handled : (Option Person → Page (Option View)) → Got Person × Site → Answer × Site
handled h (failed e, s) = (render_error e, s)
handled h (got p, s) = answer (h (some p) s)

-- `wrap`, with the value of the request's cookie.
unfoldable pub wrap :
    Bool → Option Text → (Option Person → Page (Option View)) → Site → Answer × Site
unfolding current_customer answer
wrap need_customer cookie h s =
    if need_customer then handled h (current_customer cookie s) else answer (h none s)

abbrev pub is_path : Text → Bool
is_path [] = false
is_path (c ∷ []) = c == b'/'
is_path (c ∷ d ∷ _) = c == b'/' && not (d == b'/')

-- `switchCustomer`, with the two values of the form; the length is that of ASCII.
unfoldable pub switch_customer : Text → Text → Page View
switch_customer country back =
    let code = map upper (trim_space country) in
    random_customer (if length code == 2 then code else []) >>= λ id.
    set_customer_cookie id >>= λ _. pure (record {
      template = [];
      redirect = if is_path back then back else codes "/account";
      flash = codes "You are now shopping as customer #" ++ (decimal id ++ codes ".");
    })
