-- ===== src/Web/QueryLog.antt =====
-- internal/web/qlog.go: the log of the queries of a request, and the logs kept for the page after a
-- redirect.
pub mod Kept
use duckstore.Prelude.{
  ℕ, ◌+◌, ◌-◌, Bool, true, false, not, List, [], ◌∷◌, ◌++◌, Option, none, some, ltb, if◌then◌else◌,
}
use duckstore.Prelude.Text.{Text, codes, equal, trim_space, cut_prefix, lines}

pub record QueryEntry : Type 0 where
  pub engine : Text
  pub title : Text
  pub sql : Text
  pub args : Text
  pub duration : ℕ
  pub rows : ℕ
  pub err : Text

abbrev pub or_title : Text → Option Text → Text
or_title title none = title
or_title title (some t) = t

-- The loop over the lines of the SQL, which ends after the first one.
unfoldable pub title_of : Text → List Text → Text
title_of title [] = title
title_of title (l ∷ _) = or_title title (cut_prefix (trim_space l) (codes "-- "))

-- `queryLog.add`
unfoldable pub add_entry : QueryEntry → List QueryEntry → List QueryEntry
unfolding title_of
add_entry e entries =
    let sql = trim_space e.sql in
    entries ++ record e { sql = sql; title = title_of e.title (lines sql) } ∷ []

pub record PrevEntry : Type 0 where
  pub action : Text
  pub entries : List QueryEntry
  pub at : ℕ

-- The map of `prevStore`, by token. A nil map is an empty one.
abbrev pub PrevStore : Type 0
PrevStore = List (Text × PrevEntry)

-- 5 minutes, in nanoseconds
abbrev pub keep_limit : ℕ
keep_limit = 300000000000

unfoldable pub delete : Text → PrevStore → PrevStore
delete token [] = []
delete token ((k, e) ∷ m) =
    let others = delete token m in if equal k token then others else (k, e) ∷ others

-- The loop of `put` that deletes what is older than 5 minutes.
unfoldable pub delete_old : ℕ → PrevStore → PrevStore
delete_old now [] = []
delete_old now ((k, e) ∷ m) =
    let others = delete_old now m in if ltb keep_limit (now - e.at) then others else (k, e) ∷ others

-- `put`; the random token is an argument, and the result is the map.
unfoldable pub put : ℕ → Text → Text → List QueryEntry → PrevStore → PrevStore
put now token action entries m =
    (token, record { action = action; entries = entries; at = now })
    ∷ delete token (delete_old now m)

unfoldable pub lookup : Text → PrevStore → Option PrevEntry
lookup token [] = none
lookup token ((k, e) ∷ m) = if equal k token then some e else lookup token m

abbrev pub taken : PrevStore → PrevStore → Option PrevEntry → (Text × List QueryEntry) × PrevStore
taken m rest none = (([], []), m)
taken m rest (some e) = ((e.action, e.entries), rest)

-- `take`
unfoldable pub take_entry : Text → PrevStore → (Text × List QueryEntry) × PrevStore
take_entry token m = taken m (delete token m) (lookup token m)

-- `snapshot`; no log is nil.
unfoldable pub snapshot : Option (List QueryEntry) → List QueryEntry
snapshot none = []
snapshot (some entries) = entries

abbrev pub keep_entries : ℕ → Text → Text → List QueryEntry → PrevStore → Option Text × PrevStore
keep_entries now token action [] m = (none, m)
keep_entries now token action (e ∷ es) m = (some token, put now token action (e ∷ es) m)

-- `keepQueries`: the value of the cookie that it sets, and the store.
unfoldable pub keep_queries :
    ℕ → Text → Text → Option (List QueryEntry) → PrevStore → Option Text × PrevStore
unfolding put snapshot
keep_queries now token action log m = keep_entries now token action (snapshot log) m
