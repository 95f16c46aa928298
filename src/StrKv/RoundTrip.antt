-- ===== src/StrKv/RoundTrip.antt =====
-- The text of a table and the table of a text determine each other.
use gtools.Prelude.{
  ℕ, ◌++◌, List, [], ◌∷◌, ◌==◌, ◌≡◌, ◌≢◌, refl, sym, ap, ◌∙◌, map, arith, Bool-cases, inl, inr,
  ==_iff, ==_ne, ==_refl, All, All-append,
}
use gtools.Python.Struct.{Bytes}
use gtools.StrKv.Table.{StrKv, init, serialize, deserialize, copy}
use gtools.StrKv.Text.{
  newline, pipe, onto_first, split, join, Row, parse_line, parse_rows, print_rows,
}

split-ne-nil : (sep : ℕ) (b : Bytes) → split sep b ≢ []
unfolding split
split-ne-nil sep [] h = absurd (cc h)
split-ne-nil sep (c ∷ b) h = ground arith

join-onto_first :
    (sep c : ℕ) (ps : List Bytes) → ps ≢ [] → join sep (onto_first c ps) ≡ c ∷ join sep ps
unfolding join
join-onto_first sep c [] h = absurd (h refl)
join-onto_first sep c (p ∷ []) h = refl
join-onto_first sep c (p ∷ q ∷ ps) h = refl

join_empty_first : (sep : ℕ) (ps : List Bytes) → ps ≢ [] → join sep ([] ∷ ps) ≡ sep ∷ join sep ps
unfolding join
join_empty_first sep [] h = absurd (h refl)
join_empty_first sep (p ∷ ps) h = refl

join_one : (sep : ℕ) (p : Bytes) → join sep (p ∷ []) ≡ p
unfolding join
join_one sep p = refl

-- Joining the pieces of a split gives the bytes back.
pub join-split : (sep : ℕ) (b : Bytes) → join sep (split sep b) ≡ b
unfolding split
join-split sep [] = join_one sep []
join-split sep (c ∷ b) = elim (Bool-cases (c == sep)) [
  | inl e ↦ rw e (
      join_empty_first sep (split sep b) (split-ne-nil sep b)
      ∙ ground (arith, ==_iff c sep, join-split sep b))
  | inr e ↦
      rw e
        (join-onto_first sep c (split sep b) (split-ne-nil sep b) ∙ ap (◌∷◌ c) (join-split sep b))
]

abbrev pub Lacks : ℕ → Bytes → Type 0
Lacks sep b = All (λ x. x ≢ sep) b

split-Lacks : (sep : ℕ) (p : Bytes) → Lacks sep p → split sep p ≡ p ∷ []
unfolding split
split-Lacks sep [] h = refl
split-Lacks sep (c ∷ p) h = rw (==_ne c sep h.0, split-Lacks sep p h.1)

split-append : (sep : ℕ) (p b : Bytes) → Lacks sep p → split sep (p ++ sep ∷ b) ≡ p ∷ split sep b
unfolding split
split-append sep [] b h = rw (==_refl sep)
split-append sep (c ∷ p) b h = rw (==_ne c sep h.0, split-append sep p b h.1)

-- Splitting what was joined gives the pieces back, where no piece holds the separator.
pub split-join :
    (sep : ℕ) (ps : List Bytes) → ps ≢ [] → All (Lacks sep) ps → split sep (join sep ps) ≡ ps
unfolding join
split-join sep [] ne h = absurd (ne refl)
split-join sep (p ∷ []) ne h = split-Lacks sep p h.0
split-join sep (p ∷ q ∷ ps) ne h =
    split-append sep p (join sep (q ∷ ps)) h.0
    ∙ ap (◌∷◌ p) (split-join sep (q ∷ ps) (λ e. absurd (cc e)) h.1)

join-parse_line : (l : Bytes) → join pipe (parse_line l) ≡ l
join-parse_line [] = unfold join in refl
join-parse_line (c ∷ l) = join-split pipe (c ∷ l)

lines_back : (ls : List Bytes) → map (join pipe) (map parse_line ls) ≡ ls
lines_back [] = refl
lines_back (l ∷ ls) = rw (join-parse_line l, lines_back ls)

-- Any bytes are the text of the table that they are read as.
pub print_rows-parse_rows : (b : Bytes) → print_rows (parse_rows b) ≡ b
unfolding print_rows parse_rows
print_rows-parse_rows [] = unfold join in refl
print_rows-parse_rows (c ∷ b) =
    ap (join newline) (lines_back (split newline (c ∷ b))) ∙ join-split newline (c ∷ b)

-- A cell holds neither separator. A row of one empty cell would have the text of a row with none,
-- and a table of one row with no cell would have the text of the empty table.
abbrev pub IsCell : Bytes → Type 0
IsCell c = Lacks newline c × Lacks pipe c

abbrev pub IsRow : Row → Type 0
IsRow row = (row ≢ [] ∷ []) × All IsCell row

abbrev pub IsTable : List Row → Type 0
IsTable rows = (rows ≢ [] ∷ []) × All IsRow rows

cells_lack : (row : Row) → All IsCell row → All (Lacks pipe) row
cells_lack [] h = tt
cells_lack (c ∷ row) h = (h.0.1, cells_lack row h.1)

join-Lacks : (row : Row) → All IsCell row → Lacks newline (join pipe row)
unfolding join
join-Lacks [] h = tt
join-Lacks (c ∷ []) h = h.0.0
join-Lacks (c ∷ d ∷ row) h =
    All-append (λ x. x ≢ newline) c (pipe ∷ join pipe (d ∷ row)) h.0.0
      (λ e. absurd (omega arith), join-Lacks (d ∷ row) h.1)

parse_line-split : (l : Bytes) → l ≢ [] → parse_line l ≡ split pipe l
parse_line-split [] h = absurd (h refl)
parse_line-split (c ∷ l) h = refl

join-ne-nil : (row : Row) → row ≢ [] → IsRow row → join pipe row ≢ []
unfolding join
join-ne-nil [] ne h e = ne refl
join-ne-nil ([] ∷ []) ne h e = h.0 refl
join-ne-nil ((x ∷ c) ∷ []) ne h e = absurd (cc e)
join-ne-nil ([] ∷ d ∷ row) ne h e = absurd (cc e)
join-ne-nil ((x ∷ c) ∷ d ∷ row) ne h e = absurd (cc e)

parse_line-join : (row : Row) → IsRow row → parse_line (join pipe row) ≡ row
parse_line-join [] h = unfold join in refl
parse_line-join (c ∷ row) h =
    parse_line-split (join pipe (c ∷ row)) (join-ne-nil (c ∷ row) (λ e. absurd (cc e)) h)
    ∙ split-join pipe (c ∷ row) (λ e. absurd (cc e)) (cells_lack (c ∷ row) h.1)

rows_back : (rows : List Row) → All IsRow rows → map parse_line (map (join pipe) rows) ≡ rows
rows_back [] h = refl
rows_back (row ∷ rows) h = rw (parse_line-join row h.0, rows_back rows h.1)

lines_lack : (rows : List Row) → All IsRow rows → All (Lacks newline) (map (join pipe) rows)
lines_lack [] h = tt
lines_lack (row ∷ rows) h = (join-Lacks row h.0.1, lines_lack rows h.1)

parse_rows-split : (b : Bytes) → b ≢ [] → parse_rows b ≡ map parse_line (split newline b)
unfolding parse_rows
parse_rows-split [] h = absurd (h refl)
parse_rows-split (c ∷ b) h = refl

joined_ne_nil : (p q : Bytes) (ps : List Bytes) → join newline (p ∷ q ∷ ps) ≢ []
unfolding join
joined_ne_nil [] q ps e = absurd (cc e)
joined_ne_nil (x ∷ p) q ps e = absurd (cc e)

print_rows-ne-nil : (rows : List Row) → rows ≢ [] → IsTable rows → print_rows rows ≢ []
unfolding print_rows
print_rows-ne-nil [] ne h e = ne refl
print_rows-ne-nil ([] ∷ []) ne h e = h.0 refl
print_rows-ne-nil ((c ∷ row) ∷ []) ne h e =
    join-ne-nil (c ∷ row) (λ x. absurd (cc x)) h.1.0
      (sym (join_one newline (join pipe (c ∷ row))) ∙ e)
print_rows-ne-nil (row ∷ next ∷ rows) ne h e =
    absurd (joined_ne_nil (join pipe row) (join pipe next) (map (join pipe) rows) e)

split-print_rows :
    (row : Row) (rows : List Row)
    → All IsRow (row ∷ rows)
    → split newline (print_rows (row ∷ rows)) ≡ map (join pipe) (row ∷ rows)
unfolding print_rows
split-print_rows row rows h =
    split-join newline (map (join pipe) (row ∷ rows)) (λ e. absurd (cc e))
      (lines_lack (row ∷ rows) h)

-- A table whose cells hold neither separator, which has no row of one empty cell and is not a single
-- empty row, is read back from its text.
pub parse_rows-print_rows : (rows : List Row) → IsTable rows → parse_rows (print_rows rows) ≡ rows
parse_rows-print_rows [] h = unfold parse_rows print_rows join in refl
parse_rows-print_rows (row ∷ rows) h =
    parse_rows-split (print_rows (row ∷ rows))
      (print_rows-ne-nil (row ∷ rows) (λ e. absurd (cc e)) h)
    ∙ ap (map parse_line) (split-print_rows row rows h.1)
    ∙ rows_back (row ∷ rows) h.1

-- Any bytes that are read and written again come out unchanged.
pub serialize-deserialize : (b : Bytes) → serialize (deserialize b) ≡ b
unfolding serialize deserialize
serialize-deserialize b = print_rows-parse_rows b

-- What is written for a table, and read again, is a copy of the table with a key map built anew,
-- where no cell holds a newline or a pipe, no row is one empty cell, and the table is not a single
-- row without cells.
pub deserialize-serialize-copy : (s : StrKv) → IsTable s.rows → deserialize (serialize s) ≡ copy s
unfolding serialize deserialize copy
deserialize-serialize-copy s h = ap init (parse_rows-print_rows s.rows h)
