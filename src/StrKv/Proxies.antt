-- ===== src/StrKv/Proxies.antt =====
-- `find` and `relative`: rows and cells by the first cell, in row order, that holds a value.
use gtools.Prelude.{
  ℕ, zero, suc, leb, length, replicate, ◌++◌, ◌-◌, List, [], ◌∷◌, Bool, true, false, Option, none,
  some, if◌then◌else◌, equal, ℤ, pos, negsuc, ◌+ℤ◌,
}
use gtools.Python.Exec.{Exec, Result, ok, err, key_error, index_error, lift, ◌>>=◌, ◌>>◌}
use gtools.Python.Struct.{Bytes}
use gtools.Python.Lists.{get_item, set_item}
use gtools.StrKv.Text.{Row}
use gtools.StrKv.Table.{StrKv, row_at, put_row, rebuild_if, is_zero}

-- The column of the first cell of a row that holds the target, from column `col` on.
unfoldable pub find_in_row : Bytes → ℕ → Row → Option ℕ
find_in_row target col [] = none
find_in_row target col (cell ∷ row) =
    let later = find_in_row target (suc col) row in if equal cell target then some col else later

-- `_find_cell`, from row `idx` on
unfoldable pub find_cell : Bytes → ℕ → List Row → Option (ℕ × ℕ)
unfolding find_in_row
find_cell target idx [] = none
find_cell target idx (row ∷ rows) =
    let later = find_cell target (suc idx) rows in
    elim (find_in_row target 0 row) [ none ↦ later | some col ↦ some (idx, col) ]

located : Option (ℕ × ℕ) → Result (ℕ × ℕ)
located none = err key_error
located (some p) = ok p

-- `pos = self._find_cell(value)`, and `KeyError` if there is none
unfoldable pub locate : Bytes → Exec StrKv (ℕ × ℕ)
unfolding located find_cell
locate value s = (located (find_cell value 0 s.rows), s)

-- `value in s.find`
unfoldable pub found : Bytes → StrKv → Bool
found value s = elim (find_cell value 0 s.rows) [ none ↦ false | some p ↦ true ]

-- `if not 0 <= target_col < len(row): raise IndexError`
abbrev cell_in : Row → ℤ → Result Bytes
cell_in row (pos i) = get_item row (pos i)
cell_in row (negsuc i) = err index_error

-- `relative[value, offset]`, and `find[value, offset]`, which does the same
unfoldable pub relative_get : Bytes → ℤ → Exec StrKv Bytes
unfolding locate
relative_get value offset = do
  p ← locate value
  row ← row_at (pos p.0)
  lift (cell_in row (pos p.1 +ℤ offset))

-- `len(row) <= target_col`
abbrev pub is_short : Row → ℤ → Bool
is_short row (pos i) = leb (length row) i
is_short row (negsuc i) = false

-- The loop `while len(row) <= target_col: row.append(b"")`, of at most so many rounds.
unfoldable pub append_until : ℕ → ℤ → Row → Row
append_until zero col row = row
append_until (suc n) col row =
    let later = append_until n col (row ++ [] ∷ []) in if is_short row col then later else row

-- A row reaches its column after as many cells as stand up to it, at the latest.
abbrev pub cells_to : ℤ → ℕ
cells_to (pos i) = suc i
cells_to (negsuc i) = 0

-- `if len(row) <= target_col: row.extend(itertools.repeat(b"", target_col + 1 - len(row)))`
abbrev pub extended_row : ℤ → Row → Row
extended_row col row =
    if is_short row col then row ++ replicate (cells_to col - length row) [] else row

-- `row[target_col] = v`, in the row that has grown
unfoldable pub write_grown : ℤ → ℤ → Bytes → Row → Exec StrKv Unit
write_grown i col v grown = do put_row i grown; row ← lift (set_item grown col v); put_row i row

-- `find[value, offset] = v`
unfoldable pub find_set : Bytes → ℤ → Bytes → Exec StrKv Unit
unfolding locate append_until write_grown
find_set value offset v = do
  p ← locate value
  row ← row_at (pos p.0)
  let col = pos p.1 +ℤ offset
  write_grown (pos p.0) col v (append_until (cells_to col) col row)

-- `relative[value, offset] = v`, which mends the key map at column 0
unfoldable pub relative_set : Bytes → ℤ → Bytes → Exec StrKv Unit
unfolding locate write_grown
relative_set value offset v = do
  p ← locate value
  row ← row_at (pos p.0)
  let col = pos p.1 +ℤ offset
  write_grown (pos p.0) col v (extended_row col row)
  rebuild_if (is_zero col)
