-- ===== src/Tests/StrKvTests.antt =====
-- Tables.
use gtools.Prelude.{List, [], ◌∷◌, ◌≡◌, refl, arith, pos, some, true, equal}
use gtools.Python.Exec.{Result, ok}
use gtools.Python.Struct.{Bytes}
use gtools.Python.Dict
use gtools.Python.Dict.{bytes_eq}
use gtools.StrKv.Text.{Row, split}
use gtools.StrKv.Table.{
  StrKv, index, name, one, init, copy, deserialize, serialize, row_idx_or_none,
}
use gtools.StrKv.Methods.{set_row, contains}
use gtools.StrKv.Proxies.{find_cell, find_in_row, append_until, write_grown, find_set, relative_set}
use gtools.Python.Lists.{get_item, set_item, position}
use gtools.StrKv.RoundTrip.{serialize-deserialize, deserialize-serialize-copy}
use gtools.StrKv.Keys.{IsLastRow, row_idx_or_none-init}
use gtools.StrKv.Subscripts.{read_row, SetsRow, set_row-SetsRow, init-IsIndexed}
use gtools.StrKv.Stale.{set_row_index_stale}

-- "foo|1", "bar|2", "foo|3"
abbrev foo : Bytes
foo = 102 ∷ 111 ∷ 111 ∷ []

abbrev bar : Bytes
bar = 98 ∷ 97 ∷ 114 ∷ []

abbrev baz : Bytes
baz = 98 ∷ 97 ∷ 122 ∷ []

abbrev table : List Row
table = (foo ∷ (49 ∷ []) ∷ []) ∷ (bar ∷ (50 ∷ []) ∷ []) ∷ (foo ∷ (51 ∷ []) ∷ []) ∷ []

last_foo : row_idx_or_none (name foo) (init table) ≡ some 2
unfolding row_idx_or_none init Dict.lookup Dict.insert equal
last_foo = refl

two_lines : deserialize (98 ∷ 124 ∷ 50 ∷ 10 ∷ []) ≡ init (((98 ∷ []) ∷ (50 ∷ []) ∷ []) ∷ [] ∷ [])
unfolding deserialize split
two_lines = refl

serialize-deserialize_example :
    serialize (deserialize (98 ∷ 124 ∷ 10 ∷ 10 ∷ [])) ≡ 98 ∷ 124 ∷ 10 ∷ 10 ∷ []
serialize-deserialize_example = serialize-deserialize (98 ∷ 124 ∷ 10 ∷ 10 ∷ [])

abbrev plain : StrKv
plain = record { rows = ((98 ∷ []) ∷ (50 ∷ []) ∷ []) ∷ [] ∷ []; key_map = [] }

deserialize-serialize-copy_example : deserialize (serialize plain) ≡ copy plain
deserialize-serialize-copy_example =
    deserialize-serialize-copy plain
      (λ e. absurd (cc e), ((λ e. absurd (cc e), omega arith), ((λ e. absurd (cc e), tt), tt)))

row_idx_or_none-init_run : IsLastRow foo table (row_idx_or_none (name foo) (init table))
row_idx_or_none-init_run = row_idx_or_none-init foo table

set_row-SetsRow_example :
    SetsRow baz (one (52 ∷ [])) (init table) (set_row (name baz) (one (52 ∷ [])) (init table))
set_row-SetsRow_example = set_row-SetsRow baz (one (52 ∷ [])) (init table) (init-IsIndexed table)

abbrev loaded : StrKv
loaded = record { rows = table; key_map = (foo, 2) ∷ (bar, 1) ∷ [] }

bar_row : Dict.lookup bar loaded.key_map ≡ some 1
unfolding Dict.lookup equal
bar_row = refl

set_row_index_stale_run :
    ((set_row (index (pos 1)) (one baz) loaded).0 ≡ ok tt)
    × (contains bar (set_row (index (pos 1)) (one baz) loaded).1 ≡ true)
    × (read_row bar (set_row (index (pos 1)) (one baz) loaded).1 ≡ ok (baz ∷ []))
set_row_index_stale_run = set_row_index_stale loaded bar baz 1 bar_row (omega arith) (omega arith)

abbrev by_find : Result (Unit {0}) × StrKv
by_find = find_set bar (pos 0) baz loaded

abbrev by_relative : Result (Unit {0}) × StrKv
by_relative = relative_set bar (pos 0) baz loaded

abbrev renamed : StrKv
renamed = record loaded {
  rows = (foo ∷ (49 ∷ []) ∷ []) ∷ (baz ∷ (50 ∷ []) ∷ []) ∷ (foo ∷ (51 ∷ []) ∷ []) ∷ [];
}

-- Behind the end of the row both setters fill it with empty cells.
row_filled :
    (find_set bar (pos 3) baz loaded).1.rows
    ≡ (foo ∷ (49 ∷ []) ∷ []) ∷ (bar ∷ (50 ∷ []) ∷ [] ∷ baz ∷ []) ∷ (foo ∷ (51 ∷ []) ∷ []) ∷ []
unfolding find_set find_cell find_in_row equal append_until write_grown get_item set_item position
row_filled = refl
