-- ===== src/Warehouse/Shared.antt =====
-- internal/warehouse/warehouse.go: the handle of the warehouse file that all readers share, and its
-- exchange for a newer one.
pub mod Handles
use duckstore.Prelude.{
  ℕ, ◌+◌, ◌≡◌, Bool, true, false, ◌&&◌, ◌==◌, List, [], ◌∷◌, Option, none, some, if◌then◌else◌,
}
use duckstore.Prelude.Text.{Text}

-- What `os.Stat` gives of a file, as far as `os.SameFile` and `ModTime` read it.
pub record FileInfo : Type 0 where
  pub id : ℕ
  pub mod_time : ℕ

-- `Warehouse` without its lock and its configuration; a database is a number.
pub record Shared : Type 0 where
  pub db : Option ℕ
  pub stat : Option FileInfo
  pub pg_err : Option Text
  pub opened : ℕ

pub data WithResult (R : Type 0) : Type 0 where
  not_built : WithResult R
  gave : R → WithResult R

module _ {R : Type 0} where
  abbrev pub on_db : (ℕ → R) → Option ℕ → WithResult R
  on_db fn none = not_built
  on_db fn (some d) = gave (fn d)

  -- `With`
  unfoldable pub with_db : (ℕ → R) → Shared → WithResult R
  with_db fn w = on_db fn w.db

abbrev pub is_same_as : FileInfo → Option FileInfo → Bool
is_same_as fi none = false
is_same_as fi (some old) = fi.id == old.id && fi.mod_time == old.mod_time

-- The test of `Reload` that the file opened is still the one there.
unfoldable pub is_same : FileInfo → Shared → Bool
is_same fi w = is_same_as fi w.stat

-- The part of `Reload` under the lock: the old database and what is shared now.
unfoldable pub exchange : ℕ → FileInfo → Option Text → ℕ → Shared → Option ℕ × Shared
exchange d fi pg_err now w =
    (w.db, record { db = some d; stat = some fi; pg_err = pg_err; opened = now })

pub data Stat : Type 0 where
  not_exist : Stat
  stat_failed : Text → Stat
  found : FileInfo → Stat

pub data Opened : Type 0 where
  open_failed : Text → Opened
  opened_db : ℕ → Option Text → Opened

-- The error of `Reload`, the database that it closes, and what is shared then.
abbrev pub Reloaded : Type 0
Reloaded = Option Text × (Option ℕ × Shared)

unfoldable pub reload_opened : Opened → FileInfo → ℕ → Shared → Reloaded
unfolding exchange
reload_opened (open_failed e) fi now w = (some e, (none, w))
reload_opened (opened_db d pg_err) fi now w = (none, exchange d fi pg_err now w)

-- `Reload` when nothing comes in between; `opening` is what `openWarehouse` gives when it is called.
unfoldable pub reload : Stat → Opened → ℕ → Shared → Reloaded
unfolding is_same reload_opened
reload not_exist opening now w = (none, (none, w))
reload (stat_failed e) opening now w = (some e, (none, w))
reload (found fi) opening now w =
    if is_same fi w then (none, (none, w)) else reload_opened opening fi now w

-- `Close`: the database that it closes, and what is shared then.
unfoldable pub close : Shared → Option ℕ × Shared
close w = (w.db, record w { db = none })

-- `PostgresAttachError`
unfoldable pub postgres_attach_error : Shared → Option Text
postgres_attach_error w = w.pg_err
