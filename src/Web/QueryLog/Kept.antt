-- ===== src/Web/QueryLog/Kept.antt =====
-- internal/web/qlog.go: kept queries are shown once, and only for a while.
use duckstore.Prelude.{
  ℕ, ◌-◌, ◌≤◌, ◌≡◌, refl, true, List, [], ◌∷◌, none, arith, All, Bool-cases, inl, inr, if_ind, ltb,
}
use duckstore.Prelude.Text.{Text, equal}
use duckstore.Web.QueryLog.{
  QueryEntry, PrevEntry, PrevStore, keep_limit, delete, delete_old, put, lookup, take_entry,
}

equal_self : (t : Text) → equal t t ≡ true
unfolding equal
equal_self [] = refl
equal_self (c ∷ t) = let rest = equal_self t in ground arith

lookup-delete : (token : Text) (m : PrevStore) → lookup token (delete token m) ≡ none
unfolding lookup delete
lookup-delete token [] = refl
lookup-delete token ((k, e) ∷ m) = elim (Bool-cases (equal k token)) [
  | inl s ↦ rw (s, delete) (lookup-delete token m)
  | inr d ↦ rw (d, d, delete, lookup) (lookup-delete token m)
]

-- What `put` keeps, `take` gives once, with its action, and not a second time.
pub take_entry-put :
    (now : ℕ) (token action : Text) (entries : List QueryEntry) (m : PrevStore)
    → let kept : PrevStore = put now token action entries m in
      ((take_entry token kept).0 ≡ (action, entries))
      × ((take_entry token (take_entry token kept).1).0 ≡ ([], []))
unfolding put take_entry lookup
take_entry-put now token action entries m = (
  rw (equal_self token),
  rw (equal_self token) (rw (lookup-delete token (put now token action entries m)) refl),
)

All-delete :
    (P : Text × PrevEntry → Type 0) (token : Text) (m : PrevStore)
    → All P m
    → All P (delete token m)
unfolding delete
All-delete P token [] h = tt
All-delete P token ((k, e) ∷ m) h =
    let others = All-delete P token m h.1 in
    if_ind (All P) (equal k token) (λ _. others) (λ _. (h.0, others))

-- Not older than 5 minutes.
abbrev pub IsRecent : ℕ → Text × PrevEntry → Type 0
IsRecent now p = now - p.1.at ≤ keep_limit

delete_old-IsRecent : (now : ℕ) (m : PrevStore) → All (IsRecent now) (delete_old now m)
unfolding delete_old
delete_old-IsRecent now [] = tt
delete_old-IsRecent now ((k, e) ∷ m) =
    let others = delete_old-IsRecent now m in
    if_ind (All (IsRecent now)) (ltb keep_limit (now - e.at)) (λ _. others)
      (λ f. ((ground arith), others))

-- After a `put` nothing older than 5 minutes is kept, whatever was kept before.
pub put-IsRecent :
    (now : ℕ) (token action : Text) (entries : List QueryEntry) (m : PrevStore)
    → All (IsRecent now) (put now token action entries m)
unfolding put
put-IsRecent now token action entries m =
    ((omega arith), All-delete (IsRecent now) token (delete_old now m) (delete_old-IsRecent now m))
