-- ===== src/Sqlsplit/Scan.antt =====
-- The loops of internal/sqlsplit/sqlsplit.go end, and the pieces that `Split` cuts are the script.
use duckstore.Prelude.{
  ℕ, zero, suc, ◌<◌, ◌≡◌, refl, ap, ◌∙◌, sym, List, [], ◌∷◌, ◌++◌, Option, none, some, arith,
  length, take, drop, length-drop, take-append-drop, append_assoc, append-nil, Option-cases, inl,
  inr, ◌⊎◌,
}
use duckstore.Prelude.Text.{Text}
use duckstore.Sqlsplit.{
  Statement, Move, advance, cut, move, copy, omit, stop, StripMove, strip_move, strip_from,
  strip_comments, append_statement, split_from, split,
}
use duckstore.Sqlsplit.Width.{move_bounds, strip_move_bounds}

Move-cases : (m : Move) → (m ≡ cut) ⊎ ((k : ℕ) × (m ≡ advance k))
Move-cases cut = inl refl
Move-cases (advance k) = inr (k, refl)

StripMove-cases : (m : StripMove) → (m ≡ stop) ⊎ ((k : ℕ) × (m ≡ copy k)) ⊎ ((k : ℕ) × (m ≡ omit k))
StripMove-cases stop = inl refl
StripMove-cases (copy k) = inr (inl (k, refl))
StripMove-cases (omit k) = inr (inr (k, refl))

strip_from_total :
    (fuel : ℕ) (b s : Text) → length s < fuel → (r : Text) × (strip_from fuel b s ≡ some r)
unfolding strip_from
strip_from_total zero b s h = absurd (omega arith)
strip_from_total (suc fuel) b [] h = (b, refl)
strip_from_total (suc fuel) b (c ∷ s) h = elim (StripMove-cases (strip_move c s)) [
  | inl e ↦ (b, rw (e, strip_from))
  | inr (inl (k, e)) ↦
      rw (e, strip_from)
        (strip_from_total fuel _ (drop k (c ∷ s))
          (omega (arith, length-drop k (c ∷ s), strip_move_bounds c s (inl e))))
  | inr (inr (k, e)) ↦
      rw (e, strip_from)
        (strip_from_total fuel _ (drop k (c ∷ s))
          (omega (arith, length-drop k (c ∷ s), strip_move_bounds c s (inr e))))
]

-- `stripComments` ends on every text.
pub strip_comments_total : (s : Text) → (r : Text) × (strip_comments s ≡ some r)
unfolding strip_comments
strip_comments_total s = strip_from_total (suc (length s)) [] s (omega arith)

pub append_statement_total :
    (out : List Statement) (piece : Text)
    → (out' : List Statement) × (append_statement out piece ≡ some out')
unfolding append_statement
append_statement_total out piece = elim (Option-cases (append_statement out piece)) [
  | inl e ↦ let (r, stripped) = strip_comments_total piece in absurd (ground arith)
  | inr found ↦ found
]

move-cut : (c : ℕ) (s : Text) → move c s ≡ cut → c ≡ b';'
unfolding move
move-cut c s h = ground arith

-- The pieces with a semicolon between each two of them.
abbrev pub join : List Text → Text
join [] = []
join (p ∷ []) = p
join (p ∷ q ∷ ps) = p ++ b';' ∷ join (q ∷ ps)

-- `appendStatement` on one piece after the other.
abbrev pub append_all : List Statement → List Text → Option (List Statement)
append_all out [] = some out
append_all out (p ∷ ps) = elim (append_statement out p) [
  | none ↦ none
  | some out' ↦ append_all out' ps
]

-- What the loop of `Split` makes of the piece begun and the rest of the script.
abbrev Cuts : ℕ → List Statement → Text → Text → Type 0
Cuts fuel out piece rest =
    (r : List Statement) × (split_from fuel out piece rest ≡ some r)
    × ((p : Text) × (ps : List Text) × (join (p ∷ ps) ≡ piece ++ rest)
        × (append_all out (p ∷ ps) ≡ some r))

split_from-Cuts :
    (fuel : ℕ) (out : List Statement) (piece rest : Text)
    → length rest < fuel
    → Cuts fuel out piece rest
unfolding split_from
split_from-Cuts zero out piece rest h = absurd (omega arith)
split_from-Cuts (suc fuel) out piece [] h =
    let (r, e) = append_statement_total out piece in
    (r, e, (piece, [], sym (append-nil piece), rw (e, append_all)))
split_from-Cuts (suc fuel) out piece (c ∷ s) h = elim (Move-cases (move c s)) [
  | inl e ↦
      let (out', a) = append_statement_total out piece in
      let (r, run, (q, qs, joined, appended)) = split_from-Cuts fuel out' [] s (omega arith) in
      (
        r,
        rw (e, a, split_from) run,
        (piece, q ∷ qs, rw (move-cut c s e, joined), rw (a, append_all) appended),
      )
  | inr (k, e) ↦
      let (r, run, found) =
        split_from-Cuts fuel out (piece ++ take k (c ∷ s)) (drop k (c ∷ s))
          (omega (arith, length-drop k (c ∷ s), move_bounds c s e)) in
      (
        r,
        rw (e, split_from) run,
        (
          found.0,
          found.1,
          found.2
              ∙ append_assoc piece (take k (c ∷ s)) (drop k (c ∷ s))
              ∙ ap (λ t. piece ++ t) (take-append-drop k (c ∷ s)),
          found.3,
        ),
      )
]

-- `Split` ends on every script. It cuts the script into pieces that are the whole of it, with
-- one semicolon between each two of them, and its result is what `appendStatement` makes of
-- the pieces in order.
pub split_covers :
    (script : Text)
    → (r : List Statement) × (split script ≡ some r)
      × ((p : Text) × (ps : List Text) × (join (p ∷ ps) ≡ script)
          × (append_all [] (p ∷ ps) ≡ some r))
unfolding split
split_covers script = split_from-Cuts (suc (length script)) [] [] script (omega arith)
