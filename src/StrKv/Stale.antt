-- ===== src/StrKv/Stale.antt =====
-- Two ways to write a cell or a row that leave the key map behind the rows.
use gtools.Prelude.{
  ℕ, suc, ◌-◌, ◌++◌, ◌<◌, [], ◌∷◌, ◌≡◌, ◌≢◌, refl, ap, Bool, true, some, if◌then◌else◌, length, set,
  arith, ℤ, pos, get_elem?-set_self, ==_ne, replicate, append-nil,
}
use gtools.Python.Struct.{Bytes}
use gtools.Python.Exec.{Result, ok, err}
use gtools.Python.Dict
use gtools.Python.Dict.{Dict, bytes_eq}
use gtools.StrKv.Text.{Row}
use gtools.StrKv.Table.{StrKv, index, one, ensure_row, rebuild_key_map}
use gtools.StrKv.Methods.{set_row, contains}
use gtools.StrKv.Proxies.{cells_to}
use gtools.StrKv.Subscripts.{read_row, read_row_at, set_item_pos}

-- Setting a row by its number, but for row 0, leaves the key map as it was: the old key of the row
-- still counts as a key, and reads as the new row, whatever its first cell is.
pub set_row_index_stale :
    (s : StrKv) (k w : Bytes) (i : ℕ)
    → Dict.lookup k s.key_map ≡ some i
    → i < length s.rows
    → i ≢ 0
    → ((set_row (index (pos i)) (one w) s).0 ≡ ok tt)
      × (contains k (set_row (index (pos i)) (one w) s).1 ≡ true)
      × (read_row k (set_row (index (pos i)) (one w) s).1 ≡ ok (w ∷ []))
unfolding set_row ensure_row contains Dict.contains
set_row_index_stale s k w i h lt ne =
    rw (padding, append-nil s.rows, set_item_pos s.rows i (w ∷ []) lt, ==_ne i 0 ne)
      (
        refl,
        rw h,
        read_row_at k (record s { rows = set s.rows i (w ∷ []) }) i h
            (get_elem?-set_self s.rows i (w ∷ []) lt),
      )
  where
    nothing : (i n : ℕ) → i < n → suc i - n ≡ 0
    nothing i n h = omega arith

    padding : replicate {A = Row} (suc i - length s.rows) [] ≡ []
    padding = ap (λ n. replicate {A = Row} n []) (nothing i (length s.rows) lt)

-- The row as both setters let it grow.
abbrev pub grown : ℤ → Row → Row
grown col row = row ++ replicate (cells_to col - length row) []

-- What is left of a table whose row r has grown, after the value was put into it, or was not as its
-- column is out of range.
abbrev pub after_write : Bool → ℕ → Row → Result Row → StrKv → Result (Unit {0}) × StrKv
after_write mend r row (err e) s = (err e, record s { rows = set s.rows r row })
after_write mend r row (ok w) s =
    let t = record s { rows = set s.rows r w } in (ok tt, if mend then rebuild_key_map t else t)
