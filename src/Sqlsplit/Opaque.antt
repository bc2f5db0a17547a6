-- ===== src/Sqlsplit/Opaque.antt =====
-- What internal/sqlsplit/sqlsplit.go says of quotes and comments, in a description of its own:
-- the segments inside which a semicolon does not split.
use duckstore.Prelude.{
  ℕ, suc, ◌+◌, ◌≤◌, ◌≡◌, subst, Option, ◌&&◌, if◌then◌else◌, ◌≢◌, ◌⊎◌, refl, sym, ap, ◌∙◌, Bool,
  true, false, List, [], ◌∷◌, ◌++◌, none, some, arith, length, take, drop, All, append_assoc,
  length-append, take_whole, drop_whole, ◌==◌,
}
use duckstore.Prelude.Text.{Text, codes, has_prefix, index}
use duckstore.Sqlsplit.{
  Statement, advance, move, split_from, quoted_tail, skip_quoted, skip_line, skip_block, is_tag,
  tag_length, starts_dollar, dollar_from, close_dollar, skip_dollar_quoted,
}

-- The character does not stand in the text.
abbrev pub Without : ℕ → Text → Type 0
Without c = All (λ x. x ≢ c)

-- The inside of a quoted text: the quote stands in it only in pairs.
pub data IsDoubled (quote : ℕ) : Text → Type 0 where
  nil : IsDoubled quote []
  char : {c : ℕ} {s : Text} → c ≢ quote → IsDoubled quote s → IsDoubled quote (c ∷ s)
  pair :
      {c d : ℕ} {s : Text} → c ≡ quote → d ≡ quote → IsDoubled quote s → IsDoubled quote (c ∷ d ∷ s)

abbrev pub starts : ℕ → Text → Bool
starts c [] = false
starts c (x ∷ _) = x == c

abbrev pub tag_of : Text → Text
tag_of name = b'$' ∷ (name ++ b'$' ∷ [])

-- The name between the dollar signs: a letter or `_`, then digits too.
abbrev pub IsTagName : Bool → Text → Type 0
IsTagName first [] = Unit {0}
IsTagName first (c ∷ s) = (is_tag first c ≡ true) × IsTagName false s

quoted_tail-IsDoubled :
    (quote : ℕ) {body : Text} (rest : Text)
    → IsDoubled quote body
    → starts quote rest ≡ false
    → quoted_tail quote (body ++ quote ∷ rest) ≡ length body + 1
unfolding quoted_tail
quoted_tail-IsDoubled quote [] nil h = refl
quoted_tail-IsDoubled quote (x ∷ rest) nil h = ground arith
quoted_tail-IsDoubled quote rest (char {s = []} ne d) h =
    ground (arith, quoted_tail-IsDoubled quote rest d h)
quoted_tail-IsDoubled quote rest (char {s = x ∷ s} ne d) h =
    ground (arith, quoted_tail-IsDoubled quote rest d h)
quoted_tail-IsDoubled quote rest (pair e e' d) h =
    ground (arith, quoted_tail-IsDoubled quote rest d h)

skip_line-Without :
    (body rest : Text) → Without b'\n' body → skip_line (body ++ b'\n' ∷ rest) ≡ length body
unfolding skip_line
skip_line-Without [] rest h = refl
skip_line-Without (c ∷ s) rest h = ground (arith, skip_line-Without s rest h.1)

index_block :
    (body rest : Text)
    → index body (codes "*/") ≡ none
    → index (body ++ b'*' ∷ b'/' ∷ rest) (codes "*/") ≡ some (length body)
unfolding index has_prefix
index_block [] rest h = refl
index_block (c ∷ []) rest h = ground arith
index_block (c ∷ d ∷ s) rest h = ground (arith, index_block (d ∷ s) rest)

-- Whether `p` stands at the head of a text that is as long is seen without what follows the text.
has_prefix-short :
    (s p rest : Text) → length p ≤ length s → has_prefix (s ++ rest) p ≡ has_prefix s p
unfolding has_prefix
has_prefix-short s [] rest h = refl
has_prefix-short [] (d ∷ p) rest h = absurd (omega arith)
has_prefix-short (c ∷ s) (d ∷ p) rest h =
    ap (λ b. c == d && b) (has_prefix-short s p rest (omega arith))

-- `index` one character on, `here` being whether it is found at the first.
abbrev later : Bool → Option ℕ → Option ℕ
later here r = if here then some 0 else elim r [ none ↦ none | some n ↦ some (suc n) ]

later-some :
    (here : Bool) (r r' : Option ℕ) (n : ℕ)
    → ((m : ℕ) → r ≡ some m → suc m ≡ n → r' ≡ some m)
    → later here r ≡ some n
    → later here r' ≡ some n
later-some true r r' n more found = found
later-some false none r' n more found = absurd cc
later-some false (some m) r' n more found = let e : suc m ≡ n = cc in rw (more m refl e) found

-- What is first found in a text is first found there when more follows.
index-append :
    (s : Text) (d : ℕ) (sub rest : Text) (n : ℕ)
    → index s (d ∷ sub) ≡ some n
    → n + length (d ∷ sub) ≤ length s
    → index (s ++ rest) (d ∷ sub) ≡ some n
unfolding index
index-append [] d sub rest n found h = absurd (omega arith)
index-append (c ∷ s) d sub rest n found h =
    let p = d ∷ sub in
    rw (has_prefix-short (c ∷ s) p rest (omega arith)) (
      later-some (has_prefix (c ∷ s) p) (index s p) (index (s ++ rest) p) n
        (λ m e at. index-append s d sub rest m e (omega arith)) found)

-- The tag that is first found at the end of the body is found there in the script.
index_tag :
    (name body rest : Text)
    → index (body ++ tag_of name) (tag_of name) ≡ some (length body)
    → index (body ++ b'$' ∷ ((name ++ b'$' ∷ []) ++ rest)) (tag_of name) ≡ some (length body)
index_tag name body rest found =
    subst (λ s. index s (tag_of name) ≡ some (length body)) (append_assoc body (tag_of name) rest)
      (index-append (body ++ tag_of name) b'$' (name ++ b'$' ∷ []) rest (length body) found
        (omega (arith, length-append body (tag_of name))))

tag_length-IsTagName :
    (first : Bool) (name rest : Text)
    → IsTagName first name
    → tag_length first (name ++ b'$' ∷ rest) ≡ length name
unfolding tag_length
tag_length-IsTagName first [] rest h = ground arith
tag_length-IsTagName first (c ∷ s) rest h = ground (arith, tag_length-IsTagName false s rest h.1)

-- A segment that `Split` passes over whole, if `rest` follows it: a quoted text, a line comment up
-- to its line feed, a block comment, a dollar-quoted text.
pub data IsOpaque (rest : Text) : Text → Type 0 where
  quoted :
      {quote : ℕ} {body : Text}
      → (quote ≡ b'\'') ⊎ (quote ≡ b'"')
      → IsDoubled quote body
      → starts quote rest ≡ false
      → IsOpaque rest (quote ∷ (body ++ quote ∷ []))
  line_comment :
      {body : Text}
      → Without b'\n' body
      → starts b'\n' rest ≡ true
      → IsOpaque rest (b'-' ∷ b'-' ∷ body)
  block_comment :
      (body : Text)
      → index body (codes "*/") ≡ none
      → IsOpaque rest (b'/' ∷ b'*' ∷ (body ++ b'*' ∷ b'/' ∷ []))
  dollar_quoted :
      (name body : Text)
      → IsTagName true name
      → index (body ++ tag_of name) (tag_of name) ≡ some (length body)
      → IsOpaque rest (b'$' ∷ (name ++ b'$' ∷ (body ++ b'$' ∷ (name ++ b'$' ∷ []))))

-- The loop of `Split` moves over `segment` in one round.
abbrev Moves : Text → Text → Type 0
Moves rest [] = ⊥
Moves rest (c ∷ s) = move c (s ++ rest) ≡ advance (length (c ∷ s))

quoted-Moves :
    (quote : ℕ) (body rest : Text)
    → (quote ≡ b'\'') ⊎ (quote ≡ b'"')
    → IsDoubled quote body
    → starts quote rest ≡ false
    → Moves rest (quote ∷ (body ++ quote ∷ []))
unfolding move skip_quoted
quoted-Moves quote body rest q d h =
    rw (append_assoc body (quote ∷ []) rest)
      (ground (arith, quoted_tail-IsDoubled quote rest d h, length-append body (quote ∷ [])))

line_comment-Moves :
    (body rest : Text)
    → Without b'\n' body
    → starts b'\n' rest ≡ true
    → Moves rest (b'-' ∷ b'-' ∷ body)
unfolding move skip_line has_prefix
line_comment-Moves body [] f h = cc
line_comment-Moves body (c ∷ rest) f h =
    let e : c ≡ b'\n' = ground arith in rw e (ground (arith, skip_line-Without body rest f))

block_comment-Moves :
    (body rest : Text)
    → index body (codes "*/") ≡ none
    → Moves rest (b'/' ∷ b'*' ∷ (body ++ b'*' ∷ b'/' ∷ []))
unfolding move skip_block has_prefix
block_comment-Moves body rest f =
    rw (append_assoc body (codes "*/") rest)
      (ground (arith, index_block body rest f, length-append body (codes "*/")))

-- The tag at the head of a dollar-quoted text, with what follows it.
module _ (name more : Text) where
  abbrev tag : Text
  tag = b'$' ∷ (name ++ b'$' ∷ [])

  abbrev tagged : Text
  tagged = b'$' ∷ (name ++ b'$' ∷ more)

  tagged-append : tagged ≡ tag ++ more
  tagged-append = sym (ap (λ s. b'$' ∷ s) (append_assoc name (b'$' ∷ []) more))

  length-tag : 1 + length name + 1 ≡ length tag
  length-tag = omega (arith, length-append name (b'$' ∷ []))

  take-tagged : take (1 + length name + 1) tagged ≡ tag
  take-tagged = rw (tagged-append, length-tag) (take_whole tag more)

  drop-tagged : drop (1 + length name + 1) tagged ≡ more
  drop-tagged = rw (tagged-append, length-tag) (drop_whole tag more)

  starts_dollar-tagged : starts_dollar (drop (1 + length name) tagged) ≡ true
  starts_dollar-tagged =
      let e : 1 + length name ≡ suc (length name) = omega arith in
      rw (e, drop_whole name (b'$' ∷ more)) refl

  skip_dollar_quoted-tagged :
      {n : ℕ}
      → IsTagName true name
      → index more tag ≡ some n
      → skip_dollar_quoted tagged ≡ 1 + length name + 1 + n + length tag
  unfolding skip_dollar_quoted
  skip_dollar_quoted-tagged h found = rw (tag_length-IsTagName true name more h) (
      unfold dollar_from in
      rw (starts_dollar-tagged, take-tagged)
        (unfold close_dollar in rw (close_dollar, drop-tagged, found)))

dollar_quoted-Moves :
    (name body rest : Text)
    → IsTagName true name
    → index (body ++ tag_of name) (tag_of name) ≡ some (length body)
    → Moves rest (b'$' ∷ (name ++ b'$' ∷ (body ++ b'$' ∷ (name ++ b'$' ∷ []))))
unfolding move
dollar_quoted-Moves name body rest t f =
    let more = body ++ b'$' ∷ ((name ++ b'$' ∷ []) ++ rest) in
    let e : (name ++ b'$' ∷ (body ++ b'$' ∷ (name ++ b'$' ∷ []))) ++ rest ≡ name ++ b'$' ∷ more =
      simp append_assoc in
    let found = index_tag name body rest f in
    rw e (
      ap advance (skip_dollar_quoted-tagged name more t found ∙ simp (length-append) (omega arith)))

-- Each kind of opaque segment is one round of the loop.
IsOpaque-Moves : {rest segment : Text} → IsOpaque rest segment → Moves rest segment
IsOpaque-Moves {rest} (quoted {quote} {body} q d h) = quoted-Moves quote body rest q d h
IsOpaque-Moves {rest} (line_comment {body} f h) = line_comment-Moves body rest f h
IsOpaque-Moves {rest} (block_comment body f) = block_comment-Moves body rest f
IsOpaque-Moves {rest} (dollar_quoted name body t f) = dollar_quoted-Moves name body rest t f

split_from-Moves :
    (fuel : ℕ) (out : List Statement) (piece segment rest : Text)
    → Moves rest segment
    → split_from (suc fuel) out piece (segment ++ rest)
      ≡ split_from fuel out (piece ++ segment) rest
unfolding split_from
split_from-Moves fuel out piece [] rest h = absurd h
split_from-Moves fuel out piece (c ∷ s) rest h =
    rw (h, split_from, take_whole (c ∷ s) rest, drop_whole (c ∷ s) rest)

-- A quoted text, whose quotes are doubled and which no further quote follows, a line comment up to its
-- line feed, a block comment up to its first end, and a dollar-quoted text up to the first place where
-- its tag comes again, whatever other dollar signs it has, go into the current piece as they are,
-- semicolons included: the loop of `Split` takes one round for all of it and cuts nothing.
pub split_from-IsOpaque :
    (fuel : ℕ) (out : List Statement) (piece : Text) {rest segment : Text}
    → IsOpaque rest segment
    → split_from (suc fuel) out piece (segment ++ rest)
      ≡ split_from fuel out (piece ++ segment) rest
split_from-IsOpaque fuel out piece {rest} {segment} h =
    split_from-Moves fuel out piece segment rest (IsOpaque-Moves h)
