-- ===== src/StrKv/Methods.antt =====
-- The subscripts of `StrKV`, and the row and cell views, which hold a row number and a column.
use gtools.Prelude.{
  ℕ, suc, ◌++◌, List, [], ◌∷◌, ◌==◌, Bool, true, false, Option, none, some, ltb, if◌then◌else◌,
  length, take, drop, slice, ℤ, pos, negsuc,
}
use gtools.Python.Exec.{Exec, Result, pure, lift, modify, ◌>>=◌, ◌>>◌, and_then, map_ok}
use gtools.Python.Struct.{Bytes}
use gtools.Python.Lists.{get_item, set_item, del_item}
use gtools.Python.Dict
use gtools.Python.Dict.{Dict, bytes_eq}
use gtools.StrKv.Text.{Row}
use gtools.StrKv.Table.{
  StrKv, Key, index, name, Input, one, many, to_list, rebuild_key_map, get_row_idx, ensure, row_at,
  put_row, rebuild_if, is_zero, insert_all, replace_slice, pad_to,
}

-- `self[key, start:last] = value`
unfoldable pub set_slice : Key → ℕ → Option ℕ → Input → Exec StrKv Unit
set_slice key start last value = do
  i ← ensure key
  row ← row_at i
  put_row i (replace_slice start last (to_list value) row)
  rebuild_if (start == 0)

write_cell : ℤ → ℤ → Row → Input → Exec StrKv Unit
write_cell i col row (many values) = put_row i (insert_all col values row)
write_cell i col row (one v) = do
  put_row i (pad_to col row)
  padded ← lift (set_item (pad_to col row) col v)
  put_row i padded

-- `self[key, col] = value`: a list is inserted at the column, one value replaces the cell.
unfoldable pub set_cell : Key → ℤ → Input → Exec StrKv Unit
unfolding write_cell
set_cell key col value = do
  i ← ensure key
  row ← row_at i
  write_cell i col row value
  rebuild_if (is_zero col)

-- `ensure` of a text key answers with a number that is not negative.
abbrev row_number : ℤ → ℕ
row_number (pos i) = i
row_number (negsuc i) = i

-- `self[key] = value`
unfoldable pub set_row : Key → Input → Exec StrKv Unit
set_row (index k) value = do i ← ensure (index k); put_row i (to_list value); rebuild_if (is_zero k)
set_row (name k) value = do
  i ← ensure (name k)
  put_row i (k ∷ to_list value)
  modify (λ s. record s { key_map = Dict.insert k (row_number i) s.key_map })

abbrev is_empty : List Bytes → Bool
is_empty [] = true
is_empty (x ∷ xs) = false

-- `append`
unfoldable pub append : List Bytes → StrKv → StrKv
append row s =
    let t = record s { rows = s.rows ++ row ∷ [] } in if is_empty row then t else rebuild_key_map t

-- `key in self`, on the bytes of the key
unfoldable pub contains : Bytes → StrKv → Bool
contains k s = Dict.contains k s.key_map

-- `self[key]` is the number of the row that the view holds.
unfoldable pub get_row : Key → StrKv → Result ℤ
get_row = get_row_idx

-- `self[key, col]`, and reading the cell view
unfoldable pub get_cell : Key → ℤ → StrKv → Result Bytes
get_cell key col s =
    and_then (get_row_idx key s) (λ i. and_then (get_item s.rows i) (λ row. get_item row col))

-- `self[key, start:last]`
unfoldable pub get_slice : Key → ℕ → Option ℕ → StrKv → Result (List Bytes)
get_slice key start none s =
    and_then (get_row_idx key s) (λ i. map_ok (λ row. drop start row) (get_item s.rows i))
get_slice key start (some last) s =
    and_then (get_row_idx key s)
      (λ i. map_ok (λ row. slice row start (suc last)) (get_item s.rows i))

-- `_RowView.append` and `extend`
unfoldable pub row_extend : ℤ → List Bytes → Exec StrKv Unit
row_extend i values = do row ← row_at i; put_row i (row ++ values)

abbrev first_or_empty : Row → Bytes
first_or_empty [] = []
first_or_empty (k ∷ row) = k

-- `_RowView.remove`
unfoldable pub row_remove : ℤ → Exec StrKv Unit
row_remove i = do
  row ← row_at i
  modify (λ s. record s { key_map = Dict.remove (first_or_empty row) s.key_map })
  rows ← (λ s. (del_item s.rows i, s))
  modify (λ s. rebuild_key_map (record s { rows = rows }))

clear_cell : ℤ → ℕ → Row → Exec StrKv Unit
clear_cell i col row = do
  modify (λ s.
      if col == 0 then record s { key_map = Dict.remove (first_or_empty row) s.key_map } else s)
  put_row i (take col row ++ drop (suc col) row)

-- `_CellView.remove`: out of range it does nothing, and at column 0 the key goes from the map.
unfoldable pub cell_remove : ℤ → ℕ → Exec StrKv Unit
unfolding clear_cell
cell_remove i col = do
  row ← row_at i
  if ltb col (length row) then clear_cell i col row else pure tt
