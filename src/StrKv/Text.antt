-- ===== src/StrKv/Text.antt =====
-- `bytes.split` and `bytes.join` at one byte, and the text of a table.
use gtools.Prelude.{ℕ, ◌++◌, List, [], ◌∷◌, ◌==◌, if◌then◌else◌, map}
use gtools.Python.Struct.{Bytes}

abbrev pub newline : ℕ
newline = b'\n'

abbrev pub pipe : ℕ
pipe = b'|'

-- Puts a byte in front of the first piece.
abbrev pub onto_first : ℕ → List Bytes → List Bytes
onto_first c [] = (c ∷ []) ∷ []
onto_first c (p ∷ ps) = (c ∷ p) ∷ ps

unfoldable pub split : ℕ → Bytes → List Bytes
split sep [] = [] ∷ []
split sep (c ∷ b) = let rest = split sep b in if c == sep then [] ∷ rest else onto_first c rest

unfoldable pub join : ℕ → List Bytes → Bytes
join sep [] = []
join sep (p ∷ []) = p
join sep (p ∷ q ∷ ps) = p ++ sep ∷ join sep (q ∷ ps)

abbrev pub Row : Type 0
Row = List Bytes

-- A line that is empty is a row with no cell.
abbrev pub parse_line : Bytes → Row
parse_line [] = []
parse_line (c ∷ b) = split pipe (c ∷ b)

unfoldable pub parse_rows : Bytes → List Row
parse_rows [] = []
parse_rows (c ∷ b) = map parse_line (split newline (c ∷ b))

-- `serialize`
unfoldable pub print_rows : List Row → Bytes
print_rows rows = join newline (map (join pipe) rows)
