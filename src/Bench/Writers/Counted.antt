-- ===== src/Bench/Writers/Counted.antt =====
-- internal/bench/bench.go: what `concurrent` counts.
use duckstore.Prelude.{
  ℕ, zero, suc, ◌+◌, ◌*◌, ◌≤◌, ◌≡◌, ◌⊎◌, inl, inr, refl, List, [], ◌∷◌, Option, none, some, arith,
}
use duckstore.Bench.Writers.{
  Update, Writing, writers, ops_per_writer, once, count_update, left_after, Takes, Wrote, updated,
  conflict, other_error, here, there, begins, writes,
}

abbrev pub total : List ℕ → ℕ
total [] = 0
total (n ∷ ns) = n + total ns

-- The updates that were made, and those that are left, are all; with an error there may be fewer.
record Balanced (s : Writing) : Type 0 where
  most : s.ok + s.failed + total s.left ≤ writers * ops_per_writer
  all : s.fatal ≡ none → s.ok + s.failed + total s.left ≡ writers * ops_per_writer

left_after-less : (u : Update) (n : ℕ) → left_after u n ≤ n
unfolding left_after
left_after-less updated n = omega arith
left_after-less conflict n = omega arith
left_after-less (other_error e) n = omega arith

Takes-less : (u : Update) (ns ns' : List ℕ) → Takes u ns ns' → total ns' + 1 ≤ total ns
Takes-less u ns ns' (here _ n ms) = let le = left_after-less u n in omega arith
Takes-less u ns ns' (there _ m ms ms' t) = let le = Takes-less u ms ms' t in omega arith

Takes-updated : (ns ns' : List ℕ) → Takes updated ns ns' → total ns' + 1 ≡ total ns
unfolding left_after
Takes-updated ns ns' (here _ n ms) = omega arith
Takes-updated ns ns' (there _ m ms ms' t) = let e = Takes-updated ms ms' t in omega arith

Takes-conflict : (ns ns' : List ℕ) → Takes conflict ns ns' → total ns' + 1 ≡ total ns
unfolding left_after
Takes-conflict ns ns' (here _ n ms) = omega arith
Takes-conflict ns ns' (there _ m ms ms' t) = let e = Takes-conflict ms ms' t in omega arith

once-some : {A : Type 0} (f : Option ℕ) (e : ℕ) → once f e ≡ none → A
once-some none e h = absurd cc
once-some (some f) e h = absurd cc

Takes-Balanced :
    (u : Update) (s : Writing) (left' : List ℕ)
    → Takes u s.left left'
    → Balanced s
    → Balanced (record (count_update u s) { left = left' })
unfolding count_update
Takes-Balanced updated s left' t b =
    let e = Takes-updated s.left left' t in
    record { most = (let m = b.most in omega arith); all = λ ok. let a = b.all ok in omega arith }
Takes-Balanced conflict s left' t b =
    let e = Takes-conflict s.left left' t in
    record { most = (let m = b.most in omega arith); all = λ ok. let a = b.all ok in omega arith }
Takes-Balanced (other_error f) s left' t b =
    let le = Takes-less (other_error f) s.left left' t in
    record { most = (let m = b.most in omega arith); all = λ ok. once-some s.fatal f ok }

Wrote-Balanced : (k : ℕ) (s : Writing) → Wrote k s → Balanced s
Wrote-Balanced k s begins = record { most = omega arith; all = λ ok. omega arith }
Wrote-Balanced k s' (writes _ s u left' w t) = Takes-Balanced u s left' t (Wrote-Balanced _ s w)

Wrote-steps : (k : ℕ) (s : Writing) → Wrote k s → k + total s.left ≤ writers * ops_per_writer
Wrote-steps k s begins = omega arith
Wrote-steps k s' (writes j s u left' w t) =
    let le = Wrote-steps j s w in let less = Takes-less u s.left left' t in omega arith

next_writer : (u : Update) (ns : List ℕ) → (total ns ≡ 0) ⊎ ((ns' : List ℕ) × Takes u ns ns')
next_writer u [] = inl refl
next_writer u (suc n ∷ ns) = inr (left_after u n ∷ ns, here u n ns)
next_writer u (zero ∷ ns) = elim (next_writer u ns) [
  | inl done ↦ inl (omega arith)
  | inr (ns', t) ↦ inr (zero ∷ ns', there u zero ns ns' t)
]

-- The updates that went through and those that a conflict refused are all, or there was an error.
abbrev pub Counted : Writing → Type 0
Counted s =
    (s.ok + s.failed ≤ writers * ops_per_writer)
    × ((s.ok + s.failed ≡ writers * ops_per_writer) ⊎ ((e : ℕ) × (s.fatal ≡ some e)))

all_or_error :
    (s : Writing) (f : Option ℕ) → s.fatal ≡ f → total s.left ≡ 0 → Balanced s → Counted s
all_or_error s none e done b =
    ((let m = b.most in omega arith), inl (let a = b.all e in omega arith))
all_or_error s (some f) e done b = ((let m = b.most in omega arith), inr (f, e))

-- `concurrent` ends, in whatever order the writers run: they make at most 8 times 150 updates in all;
-- as long as one has an update left some writer goes on, whatever the database answers; and when none
-- has, the updates that went through and those that a conflict refused are 8 times 150, or there was
-- another error and they are not more.
pub Wrote-ends :
    (k : ℕ) (s : Writing) (u : Update)
    → Wrote k s
    → (k ≤ writers * ops_per_writer)
      × (((total s.left ≡ 0) × Counted s) ⊎ ((ns' : List ℕ) × Takes u s.left ns'))
Wrote-ends k s u w = (
  (let le = Wrote-steps k s w in omega arith),
  elim (next_writer u s.left) [
    | inl done ↦ inl (done, all_or_error s s.fatal refl done (Wrote-Balanced k s w))
    | inr t ↦ inr t
  ],
)
