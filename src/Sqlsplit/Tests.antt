-- ===== src/Sqlsplit/Tests.antt =====
-- The cases of internal/sqlsplit/sqlsplit_test.go.
use duckstore.Prelude.{◌≤◌, length, All, ◌≡◌, refl, [], ◌∷◌, List, map, Option, none, some}
use duckstore.Prelude.Text.{Text, codes, has_prefix, index, lines, trim_space, cut_prefix}
use duckstore.Sqlsplit.{
  advance, omit, Statement, split, split_from, move, append_statement, read_lines, strip_comments,
  strip_from, strip_move, skip_quoted, skip_line, skip_block, skip_dollar_quoted, dollar_from,
  close_dollar, tag_length,
}
use duckstore.Sqlsplit.Width.{move_bounds}
use duckstore.Sqlsplit.Scan.{strip_comments_total, join, append_all, split_covers}
use duckstore.Sqlsplit.Opaque.{dollar_quoted, IsOpaque, split_from-IsOpaque}
use duckstore.Sqlsplit.Output.{HasText, split-HasText}

-- The functions that a run of `split` goes through.
splitting : Option (List Statement) → Option (List Statement)
unfolding split split_from move append_statement read_lines strip_comments strip_from strip_move
    skip_quoted skip_line skip_block skip_dollar_quoted dollar_from close_dollar tag_length
    has_prefix index lines trim_space cut_prefix
splitting l = l

abbrev texts : Option (List Statement) → Option (List Text)
texts none = none
texts (some l) = some (map (λ (s : Statement). s.sql) l)

two : texts (split (codes "SELECT 1;\nSELECT 2")) ≡ some (codes "SELECT 1" ∷ codes "SELECT 2" ∷ [])
unfolding splitting
two = refl

in_string :
    texts (split (codes "SELECT 'a;b'; SELECT 'it''s; fine'"))
    ≡ some (codes "SELECT 'a;b'" ∷ codes "SELECT 'it''s; fine'" ∷ [])
unfolding splitting
in_string = refl

comments :
    texts (split (codes "/* a; b */ SELECT 1; SELECT /* ; */ 2"))
    ≡ some (codes "/* a; b */ SELECT 1" ∷ codes "SELECT /* ; */ 2" ∷ [])
unfolding splitting
comments = refl

dollars :
    texts (split (codes "SELECT $fn$ ; $fn$; SELECT $1"))
    ≡ some (codes "SELECT $fn$ ; $fn$" ∷ codes "SELECT $1" ∷ [])
unfolding splitting
dollars = refl

only_comments : split (codes "-- nothing here;\n/* nor here */;") ≡ some []
unfolding splitting
only_comments = refl

labels :
    split (codes "-- step: load orders\n-- more text\nCREATE TABLE a;\nSELECT 2;")
    ≡ some (
        record {
          sql = codes "-- step: load orders\n-- more text\nCREATE TABLE a";
          label = codes "load orders";
        }
        ∷ record { sql = codes "SELECT 2"; label = [] }
        ∷ [])
unfolding splitting
labels = refl

split_example :
    split (codes "-- step: a\nSELECT 1;")
    ≡ some (record { sql = codes "-- step: a\nSELECT 1"; label = codes "a" } ∷ [])
unfolding splitting
split_example = refl

split_covers_example :
    (r : List Statement) × (split (codes "SELECT 1;\nSELECT 2") ≡ some r)
    × ((p : Text) × (ps : List Text) × (join (p ∷ ps) ≡ codes "SELECT 1;\nSELECT 2")
        × (append_all [] (p ∷ ps) ≡ some r))
split_covers_example = split_covers (codes "SELECT 1;\nSELECT 2")

-- A text between the tags `$$`, with a semicolon and a dollar sign in it.
segment_example : IsOpaque (codes " ;") (codes "$$a;$1$$")
unfolding index has_prefix
segment_example = dollar_quoted [] (codes "a;$1") tt refl

split_from-IsOpaque_example :
    split_from 9 [] (codes "SELECT ") (codes "$$a;$1$$ ;")
    ≡ split_from 8 [] (codes "SELECT $$a;$1$$") (codes " ;")
split_from-IsOpaque_example = split_from-IsOpaque 8 [] (codes "SELECT ") segment_example

split-HasText_example :
    All HasText (record { sql = codes "-- step: a\nSELECT 1"; label = codes "a" } ∷ [])
split-HasText_example = split-HasText (codes "-- step: a\nSELECT 1;") split_example

appended_example :
    append_statement [] (codes " SELECT 1 ")
    ≡ some (record { sql = codes "SELECT 1"; label = [] } ∷ [])
unfolding splitting
appended_example = refl

abbrev statements : List Statement
statements = record { sql = codes "SELECT 1"; label = [] } ∷ []

moved_example : move b'-' (codes "- a;b\nc") ≡ advance 6
unfolding splitting
moved_example = refl

move_bounds_example : (1 ≤ 6) × (6 ≤ length (b'-' ∷ codes "- a;b\nc"))
move_bounds_example = move_bounds b'-' (codes "- a;b\nc") moved_example

omitted_example : strip_move b'/' (codes "* a */b") ≡ omit 7
unfolding splitting
omitted_example = refl

strip_comments_total_example : (r : Text) × (strip_comments (codes "a /* b */ -- c") ≡ some r)
strip_comments_total_example = strip_comments_total (codes "a /* b */ -- c")
