-- ===== src/Warehouse/Shared/Handles.antt =====
-- internal/warehouse/warehouse.go: however readers and reloads interleave, each database opened is
-- in one place, and none is closed while a reader uses it.
use duckstore.Prelude.{
  ℕ, suc, ◌+◌, ◌≤◌, ◌≡◌, refl, ap, subst, true, false, ◌==◌, ltb, List, [], ◌∷◌, ◌++◌, Option, none,
  some, arith, All, if◌then◌else◌,
}
use duckstore.Prelude.Text.{Text}
use duckstore.Warehouse.Shared.{
  FileInfo, Shared, gave, on_db, with_db, is_same, exchange, found, Opened, opened_db,
  reload_opened, reload, close,
}

-- Who runs: the readers in `With`, each with its database; what calls of `Reload` have opened and
-- not yet shared; what they have taken out and not yet closed; what is closed; the next database.
pub record World : Type 0 where
  pub shared : Shared
  pub readers : List ℕ
  pub fresh : List ℕ
  pub old : List ℕ
  pub closed : List ℕ
  pub next : ℕ

abbrev pub to_list : Option ℕ → List ℕ
to_list none = []
to_list (some d) = d ∷ []

abbrev pub with_reader : ℕ → World → World
with_reader d w = record w { readers = d ∷ w.readers }

abbrev pub without_reader : List ℕ → World → World
without_reader rest w = record w { readers = rest }

abbrev pub with_fresh : World → World
with_fresh w = record w { fresh = w.next ∷ w.fresh; next = suc w.next }

abbrev pub exchanged : ℕ → FileInfo → Option Text → ℕ → List ℕ → World → World
exchanged d fi pg_err now rest w = record w {
  shared = (exchange d fi pg_err now w.shared).1;
  fresh = rest;
  old = to_list (exchange d fi pg_err now w.shared).0 ++ w.old;
}

abbrev pub without_old : ℕ → List ℕ → World → World
without_old d rest w = record w { old = rest; closed = d ∷ w.closed }

abbrev pub closed_all : World → World
closed_all w = record w {
  shared = (close w.shared).1;
  closed = to_list (close w.shared).0 ++ w.closed;
}

-- The steps that the lock allows: a write needs that no reader runs. `Reload` tests for the same
-- file and opens without the lock, so it opens at any time.
pub data Ran : World → Type 0 where
  fresh_start :
      (s : Shared)
      → s.db ≡ none
      → Ran (record { shared = s; readers = []; fresh = []; old = []; closed = []; next = 0 })
  read_begins :
      (d : ℕ) {w : World} → Ran w → with_db (λ x. x) w.shared ≡ gave d → Ran (with_reader d w)
  read_ends :
      (before : List ℕ) (d : ℕ) (after : List ℕ) {w : World}
      → Ran w
      → w.readers ≡ before ++ d ∷ after
      → Ran (without_reader (before ++ after) w)
  opens : {w : World} → Ran w → Ran (with_fresh w)
  exchanges :
      (before : List ℕ) (d : ℕ) (after : List ℕ) (fi : FileInfo) (pg_err : Option Text) (now : ℕ)
      {w : World}
      → Ran w
      → w.readers ≡ []
      → w.fresh ≡ before ++ d ∷ after
      → Ran (exchanged d fi pg_err now (before ++ after) w)
  closes_old :
      (before : List ℕ) (d : ℕ) (after : List ℕ) {w : World}
      → Ran w
      → w.old ≡ before ++ d ∷ after
      → Ran (without_old d (before ++ after) w)
  closes : {w : World} → Ran w → w.readers ≡ [] → Ran (closed_all w)

unfoldable pub count : ℕ → List ℕ → ℕ
count d [] = 0
count d (x ∷ l) = (if x == d then 1 else 0) + count d l

count-append : (d : ℕ) (k l : List ℕ) → count d (k ++ l) ≡ count d k + count d l
unfolding count
count-append d [] l = omega arith
count-append d (x ∷ k) l = let rest = count-append d k l in omega arith

-- In how many places a database is.
abbrev pub places : ℕ → World → ℕ
places d w = count d (to_list w.shared.db) + count d w.fresh + count d w.old + count d w.closed

-- Each database opened so far is in one place, and no other is in any.
abbrev pub HasPlace : World → Type 0
HasPlace w = (d : ℕ) → places d w ≡ (if ltb d w.next then 1 else 0)

count-middle :
    (d : ℕ) (before : List ℕ) (x : ℕ) (after : List ℕ) {l : List ℕ}
    → l ≡ before ++ x ∷ after
    → count d l ≡ (if x == d then 1 else 0) + count d (before ++ after)
unfolding count
count-middle d before x after e =
    let whole = ap (λ l. count d l) e in
    omega (arith, count-append d before (x ∷ after), count-append d before after)

count_self : (d : ℕ) → count d (d ∷ []) ≡ 1
unfolding count
count_self d = ground arith

-- Whatever readers, reloads and a close do, and in whatever order the lock lets them, every
-- database opened so far is in exactly one place: shared, not yet shared, taken out, or closed.
-- So none is closed twice.
pub Ran-HasPlace : (w : World) → Ran w → HasPlace w
unfolding exchange close count
Ran-HasPlace w (fresh_start s e) d = rw e (ground arith)
Ran-HasPlace w (read_begins x ran e) d = Ran-HasPlace _ ran d
Ran-HasPlace w (read_ends before x after ran e) d = Ran-HasPlace _ ran d
Ran-HasPlace w (opens {w = w0} ran) d = let h = Ran-HasPlace _ ran d in ground arith
Ran-HasPlace w (exchanges before x after fi pg_err now {w = w0} ran idle e) d =
    let h = Ran-HasPlace _ ran d in
    let c = count-middle d before x after e in
    omega (arith, count-append d (to_list w0.shared.db) w0.old)
Ran-HasPlace w (closes_old before x after ran e) d =
    let h = Ran-HasPlace _ ran d in let c = count-middle d before x after e in omega arith
Ran-HasPlace w (closes {w = w0} ran idle) d =
    let h = Ran-HasPlace _ ran d in omega (arith, count-append d (to_list w0.shared.db) w0.closed)

abbrev pub IsShared : World → ℕ → Type 0
IsShared w d = w.shared.db ≡ some d

All-without :
    (P : ℕ → Type 0) (before : List ℕ) (d : ℕ) (after : List ℕ)
    → All P (before ++ d ∷ after)
    → All P (before ++ after)
All-without P [] d after h = h.1
All-without P (x ∷ before) d after h = (h.0, All-without P before d after h.1)

on_db-some : (o : Option ℕ) (d : ℕ) → on_db (λ x. x) o ≡ gave d → o ≡ some d
on_db-some none d e = absurd cc
on_db-some (some x) d e = cc

Ran-IsShared : (w : World) → Ran w → All (IsShared w) w.readers
unfolding with_db
Ran-IsShared w (fresh_start s e) = tt
Ran-IsShared w (read_begins x {w = w0} ran e) = (on_db-some w0.shared.db x e, Ran-IsShared _ ran)
Ran-IsShared w (read_ends before x after {w = w0} ran e) =
    All-without (IsShared w0) before x after (subst (All (IsShared w0)) e (Ran-IsShared _ ran))
Ran-IsShared w (opens ran) = Ran-IsShared _ ran
Ran-IsShared w (exchanges before x after fi pg_err now {w = w0} ran idle e) = rw idle tt
Ran-IsShared w (closes_old before x after ran e) = Ran-IsShared _ ran
Ran-IsShared w (closes {w = w0} ran idle) = rw idle tt

shared_not_closed : (w : World) → HasPlace w → (d : ℕ) → IsShared w d → count d w.closed ≡ 0
shared_not_closed w h d e =
    let place = h d in
    let here : count d (to_list w.shared.db) ≡ 1 = rw e (count_self d) in
    let most : (if ltb d w.next then 1 else 0) ≤ 1 = ground arith in omega arith

All-map : (P Q : ℕ → Type 0) (l : List ℕ) → ((d : ℕ) → P d → Q d) → All P l → All Q l
All-map P Q [] f h = tt
All-map P Q (d ∷ l) f h = (f d h.0, All-map P Q l f h.1)

-- No database is closed while a reader uses it, whatever readers, reloads and a close do, and in
-- whatever order the lock lets them.
pub Ran-readers : (w : World) → Ran w → All (λ d. count d w.closed ≡ 0) w.readers
Ran-readers w ran =
    All-map (IsShared w) (λ d. count d w.closed ≡ 0) w.readers
      (shared_not_closed w (Ran-HasPlace w ran)) (Ran-IsShared w ran)

is_same_self : (fi : FileInfo) (w : Shared) → w.stat ≡ some fi → is_same fi w ≡ true
unfolding is_same
is_same_self fi w e = rw e (ground arith)

-- Once `Reload` has shared a database of a file, a second one that finds the same file opens
-- nothing: it has no error, closes nothing and changes nothing.
pub reload-reload :
    (fi : FileInfo) (d : ℕ) (pg_err : Option Text) (now later : ℕ) (opening : Opened) (w : Shared)
    → is_same fi w ≡ false
    → let first : Shared = (reload (found fi) (opened_db d pg_err) now w).1.1 in
      (first.db ≡ some d) × (reload (found fi) opening later first ≡ (none, (none, first)))
unfolding reload reload_opened exchange
reload-reload fi d pg_err now later opening w e =
    let first : Shared = record { db = some d; stat = some fi; pg_err = pg_err; opened = now } in
    let again : is_same fi first ≡ true = is_same_self fi first refl in
    (rw e refl, rw (e, again) refl)
