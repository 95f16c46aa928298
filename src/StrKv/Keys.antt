-- ===== src/StrKv/Keys.antt =====
-- The key map: what a freshly built one holds, and what the subscripts do to it.
use gtools.Prelude.{
  ℕ, suc, ◌+◌, ◌++◌, ◌<◌, List, [], ◌∷◌, ◌≡◌, refl, sym, ap, ◌∙◌, Bool, true, false, Option, none,
  some, if◌then◌else◌, length, get_elem?, arith, equal, equal_iff, Bool-cases, inl, inr,
  get_elem?-append_left, get_elem?-append_last, get_elem?-lt, length-append, append_assoc,
  append-nil, subst, ◌⊎◌,
}
use mathlib.Core.Bool.{false≢true}
use native.Mathlib.Decide.{dec_lt}
use gtools.Python.Struct.{Bytes}
use gtools.Python.Dict
use gtools.Python.Dict.{Dict, bytes_eq, lookup-insert, beq_refl, beq_ne}
use gtools.StrKv.Text.{Row}
use gtools.StrKv.Table.{name, index_rows, init, row_idx_or_none}

-- Row i has the key k.
abbrev pub Heads : List Row → ℕ → Bytes → Type 0
Heads rows i k = (cells : List Bytes) × (get_elem? rows i ≡ some (k ∷ cells))

-- The last row with the key, or that there is none.
abbrev pub IsLastRow : Bytes → List Row → Option ℕ → Type 0
IsLastRow k rows none = (j : ℕ) → ¬ Heads rows j k
IsLastRow k rows (some i) = Heads rows i k × ((j : ℕ) → i < j → ¬ Heads rows j k)

first_is : Bytes → Row → Bool
first_is k [] = false
first_is k (c ∷ cells) = equal c k

last_from : Bytes → ℕ → List Row → Option ℕ → Option ℕ
last_from k idx [] before = before
last_from k idx (row ∷ rows) before =
    last_from k (suc idx) rows (if first_is k row then some idx else before)

lookup-index_rows :
    (k : Bytes) (idx : ℕ) (rows : List Row) (m : Dict Bytes ℕ)
    → Dict.lookup k (index_rows idx rows m) ≡ last_from k idx rows (Dict.lookup k m)
unfolding index_rows last_from first_is
lookup-index_rows k idx [] m = refl
lookup-index_rows k idx ([] ∷ rows) m = lookup-index_rows k (suc idx) rows m
lookup-index_rows k idx ((c ∷ cells) ∷ rows) m =
    lookup-index_rows k (suc idx) rows (Dict.insert c idx m)
    ∙ ap (last_from k (suc idx) rows) (lookup-insert c k idx m)

one_more : (n : ℕ) → n + 1 ≡ suc n
one_more n = omega arith

first_is-cons : (k : Bytes) (cells : List Bytes) → first_is k (k ∷ cells) ≡ true
unfolding first_is
first_is-cons k cells = beq_refl k

first_is-head :
    (k : Bytes) (row : Row) → first_is k row ≡ true → (cells : List Bytes) × (row ≡ k ∷ cells)
unfolding first_is
first_is-head k [] h = absurd (cc h)
first_is-head k (c ∷ cells) h = (cells, ap (λ x. x ∷ cells) ((equal_iff c k).0 h))

-- In a table with one more row, a row with the key is an old one or the new one.
Heads-split :
    (k : Bytes) (seen : List Row) (row : Row) (j : ℕ)
    → Heads (seen ++ row ∷ []) j k
    → Heads seen j k ⊎ ((j ≡ length seen) × (first_is k row ≡ true))
Heads-split k seen row j h = elim (dec_lt j (length seen)) [
  | yes old ↦ inl (h.0, sym (get_elem?-append_left seen (row ∷ []) j old) ∙ h.1)
  | no late ↦
      let inside = get_elem?-lt (seen ++ row ∷ []) j h.1 in
      let here : j ≡ length seen = omega (arith, length-append seen (row ∷ [])) in
      inr (here, ground (arith, get_elem?-append_last seen row j here, h.1, first_is-cons k h.0))
]

Heads-left :
    (k : Bytes) (seen : List Row) (row : Row) (j : ℕ)
    → Heads seen j k
    → Heads (seen ++ row ∷ []) j k
Heads-left k seen row j h =
    (h.0, get_elem?-append_left seen (row ∷ []) j (get_elem?-lt seen j h.1) ∙ h.1)

new_last :
    (k : Bytes) (seen : List Row) (row : Row)
    → first_is k row ≡ true
    → IsLastRow k (seen ++ row ∷ []) (some (length seen))
new_last k seen row h =
    let (cells, e) = first_is-head k row h in
    (
      (cells, get_elem?-append_last seen row (length seen) refl ∙ ap some e),
      λ j late w.
          absurd
            (omega (arith, get_elem?-lt (seen ++ row ∷ []) j w.1, length-append seen (row ∷ []))),
    )

old_last :
    (k : Bytes) (seen : List Row) (row : Row) (before : Option ℕ)
    → first_is k row ≡ false
    → IsLastRow k seen before
    → IsLastRow k (seen ++ row ∷ []) before
old_last k seen row none f h = λ j w. elim (Heads-split k seen row j w) [
  | inl old ↦ h j old
  | inr (_, t) ↦ absurd (false≢true (sym f ∙ t))
]
old_last k seen row (some i) f h = (
  Heads-left k seen row i h.0,
  λ j late w. elim (Heads-split k seen row j w) [
    | inl old ↦ h.1 j late old
    | inr (_, t) ↦ absurd (false≢true (sym f ∙ t))
  ],
)

-- The invariant of the loop: `seen` are the rows that it has passed.
last_from-IsLastRow :
    (k : Bytes) (rows seen : List Row) (before : Option ℕ)
    → IsLastRow k seen before
    → IsLastRow k (seen ++ rows) (last_from k (length seen) rows before)
unfolding last_from
last_from-IsLastRow k [] seen before h = subst (λ r. IsLastRow k r before) (sym (append-nil seen)) h
last_from-IsLastRow k (row ∷ rows) seen before h =
    let n = length-append seen (row ∷ []) ∙ one_more (length seen) in
    let seen' = seen ++ row ∷ [] in
    elim (Bool-cases (first_is k row)) [
      | inl t ↦
          rw (t, ← append_assoc seen (row ∷ []) rows, ← n)
            (last_from-IsLastRow k rows seen' (some (length seen)) (new_last k seen row t))
      | inr f ↦
          rw (f, ← append_assoc seen (row ∷ []) rows, ← n)
            (last_from-IsLastRow k rows seen' before (old_last k seen row before f h))
    ]

not-Heads-nil : (k : Bytes) (j : ℕ) → ¬ Heads [] j k
not-Heads-nil k j h = absurd (cc h.1)

-- In a table that was just built, as `deserialize` and `copy` build it, or whose key map was just
-- rebuilt, a text key names the last row that has it as its first cell, and it names no row exactly
-- when no row has it.
pub row_idx_or_none-init :
    (k : Bytes) (rows : List Row) → IsLastRow k rows (row_idx_or_none (name k) (init rows))
unfolding row_idx_or_none init
row_idx_or_none-init k rows =
    rw (lookup-index_rows k 0 rows [])
      (unfold Dict.lookup in last_from-IsLastRow k rows [] none (not-Heads-nil k))
