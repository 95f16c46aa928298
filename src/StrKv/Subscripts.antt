-- ===== src/StrKv/Subscripts.antt =====
-- `self[key] = value` for both sorts of key: what is read afterwards, and when the key map keeps
-- true to the rows.
use gtools.Prelude.{
  ℕ, zero, suc, ◌++◌, ◌<◌, List, [], ◌∷◌, ◌≡◌, ◌≢◌, refl, sym, ap, ◌∙◌, Option, none, some,
  if◌then◌else◌, length, get_elem?, set, arith, equal, equal_iff, Bool-cases, Option-cases, inl,
  inr, pos, get_elem?-set_self, get_elem?-set_ne, get_elem?-append_left, get_elem?-append_last,
  get_elem?-lt, length-append, lt→ltb, subst,
}
use gtools.Python.Struct.{Bytes}
use mathlib.Core.Bool.{false≢true}
use gtools.Python.Exec.{Result, ok, err, key_error}
use gtools.Python.Lists.{get_item, set_item}
use gtools.Python.Dict
use gtools.Python.Dict.{Dict, bytes_eq, lookup-insert, beq_refl, beq_ne}
use gtools.StrKv.Text.{Row}
use gtools.StrKv.Table.{StrKv, name, Input, to_list, init, get_row_idx, ensure_row, row_idx_or_none}
use gtools.StrKv.Methods.{set_row, get_slice}
use gtools.StrKv.Keys.{Heads, IsLastRow, row_idx_or_none-init}

pub get_item_pos :
    {A : Type 0} (xs : List A) (i : ℕ) {v : A}
    → get_elem? xs i ≡ some v
    → get_item xs (pos i) ≡ ok v
unfolding get_item
get_item_pos xs i h = ground (arith, h, lt→ltb i (length xs) (get_elem?-lt xs i h))

pub set_item_pos :
    {A : Type 0} (xs : List A) (i : ℕ) (v : A)
    → i < length xs
    → set_item xs (pos i) v ≡ ok (set xs i v)
unfolding set_item
set_item_pos xs i v h = rw (lt→ltb i (length xs) h)

-- Each key of the map leads to a row that it heads.
pub record IsIndexed (s : StrKv) : Type 0 where
  pub heads : (k : Bytes) (i : ℕ) → Dict.lookup k s.key_map ≡ some i → Heads s.rows i k

-- The whole row of a text key.
abbrev pub read_row : Bytes → StrKv → Result Row
read_row k = get_slice (name k) 0 none

pub read_row_at :
    (k : Bytes) (s : StrKv) (i : ℕ) {row : Row}
    → Dict.lookup k s.key_map ≡ some i
    → get_elem? s.rows i ≡ some row
    → read_row k s ≡ ok row
unfolding get_slice get_row_idx
read_row_at k s i h e = rw (h, get_item_pos s.rows i e)

read_row_missing :
    (k : Bytes) (s : StrKv) → Dict.lookup k s.key_map ≡ none → read_row k s ≡ err key_error
unfolding get_slice get_row_idx
read_row_missing k s h = rw h

-- What `self[k] = value` leaves: row i is the key and the values, the map has k at i, and all else is
-- as it was.
record Written (k : Bytes) (cells : List Bytes) (s t : StrKv) : Type 0 where
  place : ℕ
  row : get_elem? t.rows place ≡ some (k ∷ cells)
  others : (j : ℕ) → place ≢ j → j < length s.rows → get_elem? t.rows j ≡ get_elem? s.rows j
  keys :
      (j : Bytes)
      → Dict.lookup j t.key_map ≡ (if equal k j then some place else Dict.lookup j s.key_map)
  apart : (j : Bytes) (i : ℕ) → k ≢ j → Dict.lookup j s.key_map ≡ some i → place ≢ i

set-append_last :
    (rows : List Row) (x y : Row) (i : ℕ)
    → i ≡ length rows
    → set (rows ++ x ∷ []) i y ≡ rows ++ y ∷ []
set-append_last [] x y zero h = refl
set-append_last [] x y (suc i) h = absurd (omega arith)
set-append_last (r ∷ rows) x y zero h = absurd (omega arith)
set-append_last (r ∷ rows) x y (suc i) h = ap (◌∷◌ r) (set-append_last rows x y i (omega arith))

same_head : (rows : List Row) (i : ℕ) (j k : Bytes) → Heads rows i j → Heads rows i k → j ≡ k
same_head rows i j k h w = cc (h.1, w.1)

abbrev overwritten : Bytes → Input → ℕ → StrKv → StrKv
overwritten k v i s = record {
  rows = set s.rows i (k ∷ to_list v);
  key_map = Dict.insert k i s.key_map;
}

abbrev appended : Bytes → Input → StrKv → StrKv
appended k v s = record {
  rows = s.rows ++ (k ∷ to_list v) ∷ [];
  key_map = Dict.insert k (length s.rows) (Dict.insert k (length s.rows) s.key_map);
}

module _ (k : Bytes) (v : Input) (s : StrKv) where
  set_row_old :
      (i : ℕ)
      → Dict.lookup k s.key_map ≡ some i
      → i < length s.rows
      → set_row (name k) v s ≡ (ok tt, overwritten k v i s)
  unfolding set_row ensure_row
  set_row_old i h lt = rw (h, set_item_pos s.rows i (k ∷ to_list v) lt)

  set_row_new : Dict.lookup k s.key_map ≡ none → set_row (name k) v s ≡ (ok tt, appended k v s)
  unfolding set_row ensure_row
  set_row_new h = rw (
    h,
    set_item_pos (s.rows ++ (k ∷ []) ∷ []) (length s.rows) (k ∷ to_list v)
        (omega (arith, length-append s.rows ((k ∷ []) ∷ []))),
    set-append_last s.rows (k ∷ []) (k ∷ to_list v) (length s.rows) refl,
  )

  Written-old :
      (i : ℕ)
      → IsIndexed s
      → Dict.lookup k s.key_map ≡ some i
      → Written k (to_list v) s (overwritten k v i s)
  Written-old i x h = record {
    place = i;
    row = get_elem?-set_self s.rows i (k ∷ to_list v) (get_elem?-lt s.rows i (x.heads k i h).1);
    others = λ j ne lt. get_elem?-set_ne s.rows i j (k ∷ to_list v) ne;
    keys = λ j. lookup-insert k j i s.key_map;
    apart = λ j n ne e p. ne (same_head s.rows i k j (x.heads k i h) (rw (← p) at (x.heads j n e)));
  }

  Written-new : IsIndexed s → Written k (to_list v) s (appended k v s)
  Written-new x = record {
    place = length s.rows;
    row = get_elem?-append_last s.rows (k ∷ to_list v) (length s.rows) refl;
    others = λ j ne lt. get_elem?-append_left s.rows ((k ∷ to_list v) ∷ []) j lt;
    keys = λ j.
        lookup-insert k j (length s.rows) (Dict.insert k (length s.rows) s.key_map)
        ∙ ground (arith, lookup-insert k j (length s.rows) s.key_map);
    apart = λ j n ne e p. absurd (omega (arith, get_elem?-lt s.rows n (x.heads j n e).1));
  }

module _ {k : Bytes} {cells : List Bytes} {s t : StrKv} (w : Written k cells s t) where
  Written-self : read_row k t ≡ ok (k ∷ cells)
  Written-self = read_row_at k t w.place (w.keys k ∙ rw (beq_refl k)) w.row

  kept_row :
      (j : Bytes) (i : ℕ)
      → IsIndexed s
      → k ≢ j
      → Dict.lookup j s.key_map ≡ some i
      → get_elem? t.rows i ≡ get_elem? s.rows i
  kept_row j i x ne e = w.others i (w.apart j i ne e) (get_elem?-lt s.rows i (x.heads j i e).1)

  kept_key : (j : Bytes) → k ≢ j → Dict.lookup j t.key_map ≡ Dict.lookup j s.key_map
  kept_key j ne = w.keys j ∙ rw (beq_ne k j ne)

  Written-other : (j : Bytes) → IsIndexed s → k ≢ j → read_row j t ≡ read_row j s
  Written-other j x ne = elim (Option-cases (Dict.lookup j s.key_map)) [
    | inl e ↦ read_row_missing j t (kept_key j ne ∙ e) ∙ sym (read_row_missing j s e)
    | inr (i, e) ↦
        let (tail, there) = x.heads j i e in
        read_row_at j t i (kept_key j ne ∙ e) (kept_row j i x ne e ∙ there)
        ∙ sym (read_row_at j s i e there)
  ]

  Written-IsIndexed : IsIndexed s → IsIndexed t
  Written-IsIndexed x = record {
    heads = λ j i e. elim (Bool-cases (equal k j)) [
      | inl same ↦
          let here : w.place ≡ i = cc (e, rw same at (w.keys j)) in
          (cells, cc (here, w.row, (equal_iff k j).0 same))
      | inr other ↦
          let ne : k ≢ j = λ p. absurd (false≢true (sym other ∙ (equal_iff k j).1 p)) in
          let old = sym (kept_key j ne) ∙ e in
          let (tail, there) = x.heads j i old in (tail, kept_row j i x ne old ∙ there)
    ];
  }

-- What is true after `self[k] = value` for a text key k.
pub record SetsRow (k : Bytes) (v : Input) (s : StrKv) (r : Result (Unit {0}) × StrKv)
    : Type 0 where
  pub no_error : r.0 ≡ ok tt
  pub reads_back : read_row k r.1 ≡ ok (k ∷ to_list v)
  pub keeps : (j : Bytes) → k ≢ j → read_row j r.1 ≡ read_row j s
  pub indexed : IsIndexed r.1

conclude :
    (k : Bytes) (v : Input) (s t : StrKv)
    → IsIndexed s
    → set_row (name k) v s ≡ (ok tt, t)
    → Written k (to_list v) s t
    → SetsRow k v s (set_row (name k) v s)
conclude k v s t x e w = rw e (record {
  no_error = refl;
  reads_back = Written-self w;
  keeps = λ j ne. Written-other w j x ne;
  indexed = Written-IsIndexed w x;
})

-- With a key map that is true to the rows, setting a row by a text key, old or new, raises nothing;
-- the key then reads as the key and the values, every other key, old or new, reads as before or
-- fails as before, and the key map is true to the rows again.
pub set_row-SetsRow :
    (k : Bytes) (v : Input) (s : StrKv) → IsIndexed s → SetsRow k v s (set_row (name k) v s)
set_row-SetsRow k v s x = elim (Option-cases (Dict.lookup k s.key_map)) [
  | inl e ↦ conclude k v s (appended k v s) x (set_row_new k v s e) (Written-new k v s x)
  | inr (i, e) ↦
      conclude k v s (overwritten k v i s) x
        (set_row_old k v s i e (get_elem?-lt s.rows i (x.heads k i e).1)) (Written-old k v s i x e)
]

Heads-of_last :
    (k : Bytes) (rows : List Row) (i : ℕ) (o : Option ℕ)
    → IsLastRow k rows o
    → o ≡ some i
    → Heads rows i k
Heads-of_last k rows i none h e = absurd (cc e)
Heads-of_last k rows i (some j) h e = subst (λ n. Heads rows n k) (cc e) h.0

-- A table that was just built has a key map that is true to its rows.
pub init-IsIndexed : (rows : List Row) → IsIndexed (init rows)
unfolding init row_idx_or_none
init-IsIndexed rows = record {
  heads = λ k i.
      Heads-of_last k rows i (Dict.lookup k (init rows).key_map) (row_idx_or_none-init k rows);
}
