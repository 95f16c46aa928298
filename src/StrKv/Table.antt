-- ===== src/StrKv/Table.antt =====
-- The state of `StrKV` and its key map; `__getitem__`, `__setitem__`, `get`, `append` and the rest.
use gtools.Prelude.{
  ℕ, suc, ◌-◌, ◌++◌, List, [], ◌∷◌, ◌==◌, Bool, false, Option, none, some, ltb, if◌then◌else◌,
  length, take, drop, replicate, max, ℤ, pos, negsuc, ◌+ℤ◌,
}
use mathlib.Core.List.{reverse, foldl}
use gtools.Python.Exec.{Exec, Result, ok, err, key_error}
use gtools.Python.Struct.{Bytes}
use gtools.Python.Lists.{get_item, set_item}
use gtools.Python.Dict
use gtools.Python.Dict.{Dict, bytes_eq}
use gtools.StrKv.Text.{Row, parse_rows, print_rows}

pub record StrKv : Type 0 where
  pub rows : List Row
  pub key_map : Dict Bytes ℕ

-- An `int` key is a row number, a text one the first cell of a row.
pub data Key : Type 0 where
  index : ℤ → Key
  name : Bytes → Key

-- One value, or a list or tuple of them.
pub data Input : Type 0 where
  one : Bytes → Input
  many : List Bytes → Input

-- `_to_bytes_list`
abbrev pub to_list : Input → List Bytes
to_list (one b) = b ∷ []
to_list (many bs) = bs

-- The loop of `_rebuild_key_map` from row `idx` on.
unfoldable pub index_rows : ℕ → List Row → Dict Bytes ℕ → Dict Bytes ℕ
index_rows idx [] m = m
index_rows idx ([] ∷ rows) m = index_rows (suc idx) rows m
index_rows idx ((k ∷ cells) ∷ rows) m = index_rows (suc idx) rows (Dict.insert k idx m)

unfoldable pub rebuild_key_map : StrKv → StrKv
unfolding index_rows
rebuild_key_map s = record s { key_map = index_rows 0 s.rows [] }

unfoldable pub init : List Row → StrKv
unfolding rebuild_key_map
init rows = rebuild_key_map (record { rows = rows; key_map = [] })

unfoldable pub deserialize : Bytes → StrKv
unfolding init parse_rows
deserialize b = init (parse_rows b)

unfoldable pub serialize : StrKv → Bytes
unfolding print_rows
serialize s = print_rows s.rows

-- A copy has rows of its own, and a key map that is built anew.
unfoldable pub copy : StrKv → StrKv
unfolding init
copy s = init s.rows

unfoldable pub append_nl : StrKv → StrKv
append_nl s = record s { rows = s.rows ++ [] ∷ [] }

-- `key if key >= 0 else len(self._data) + key`
abbrev pub from_end : ℤ → StrKv → ℤ
from_end (pos i) s = pos i
from_end (negsuc i) s = pos (length s.rows) +ℤ negsuc i

abbrev found : Option ℕ → Result ℤ
found none = err key_error
found (some i) = ok (pos i)

unfoldable pub get_row_idx : Key → StrKv → Result ℤ
get_row_idx (index i) s = ok (from_end i s)
get_row_idx (name k) s = found (Dict.lookup k s.key_map)

abbrev in_range : ℤ → ℕ → Option ℕ
in_range (pos i) n = if ltb i n then some i else none
in_range (negsuc i) n = none

-- `none` is the `None` of an absent row.
unfoldable pub row_idx_or_none : Key → StrKv → Option ℕ
row_idx_or_none (index i) s = in_range (from_end i s) (length s.rows)
row_idx_or_none (name k) s = Dict.lookup k s.key_map

-- `while len(rows) <= key: rows.append([])`
abbrev pub extend_to : ℤ → List Row → List Row
extend_to (pos i) rows = rows ++ replicate (suc i - length rows) []
extend_to (negsuc i) rows = rows

ensure_name : Bytes → Option ℕ → StrKv → ℤ × StrKv
ensure_name k (some i) s = (pos i, s)
ensure_name k none s = (
  pos (length s.rows),
  record { rows = s.rows ++ (k ∷ []) ∷ []; key_map = Dict.insert k (length s.rows) s.key_map },
)

unfoldable pub ensure_row : Key → StrKv → ℤ × StrKv
unfolding ensure_name
ensure_row (index i) s = let j = from_end i s in (j, record s { rows = extend_to j s.rows })
ensure_row (name k) s = ensure_name k (Dict.lookup k s.key_map) s

abbrev pub ensure : Key → Exec StrKv ℤ
ensure k s = let (i, t) = ensure_row k s in (ok i, t)

abbrev pub row_at : ℤ → Exec StrKv Row
row_at i s = (get_item s.rows i, s)

abbrev stored : StrKv → Result (List Row) → Result (Unit {0}) × StrKv
stored s (ok rows) = (ok tt, record s { rows = rows })
stored s (err e) = (err e, s)

abbrev pub put_row : ℤ → Row → Exec StrKv Unit
put_row i row s = stored s (set_item s.rows i row)

abbrev pub is_zero : ℤ → Bool
is_zero (pos i) = i == 0
is_zero (negsuc i) = false

abbrev pub rebuild_if : Bool → Exec StrKv Unit
rebuild_if b s = (ok tt, if b then rebuild_key_map s else s)

-- `list.insert`, which takes a place out of range for the nearest end.
unfoldable pub insert_at : {A : Type 0} → ℤ → A → List A → List A
insert_at (pos i) v xs = take i xs ++ v ∷ drop i xs
insert_at (negsuc i) v xs = take (length xs - suc i) xs ++ v ∷ drop (length xs - suc i) xs

-- The loop over `reversed(values)`, each inserted at the one place.
unfoldable pub insert_all : ℤ → List Bytes → Row → Row
insert_all i values row = foldl (λ r v. insert_at i v r) row (reverse values)

-- The loop that inserts at `start`, `start + 1` and so on.
unfoldable pub insert_each : ℕ → List Bytes → Row → Row
insert_each i [] row = row
insert_each i (v ∷ vs) row = insert_each (suc i) vs (insert_at (pos i) v row)

-- `del row[start:]`, or `del row[start:stop]` with the last index inside, then the new values.
unfoldable pub replace_slice : ℕ → Option ℕ → List Bytes → Row → Row
unfolding insert_each insert_at
replace_slice start none values row = take start row ++ values
replace_slice start (some last) values row =
    insert_each start values (take start row ++ drop (max start (suc last)) row)

-- `while len(row) <= col: row.append(b"")`
abbrev pub pad_to : ℤ → Row → Row
pad_to (pos i) row = row ++ replicate (suc i - length row) []
pad_to (negsuc i) row = row
