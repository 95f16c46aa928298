-- ===== src/Variant/View.antt =====
-- The list operations of `Variant`, and the typed views of it.
use gtools.Prelude.{◌++◌, List, [], ◌∷◌, ◌==◌, ◌≡◌, ◌↔◌, refl, ℤ, if◌then◌else◌, arith}
use gtools.Python.Exec.{Result, ok, err, type_error, and_then, map_ok}
use gtools.Python.Lists.{get_item, set_item, del_item}
use gtools.Variant.Value.{Kind, kind_code, Value, kind}

kind_code_injective : (k j : Kind) → kind_code k ≡ kind_code j → k ≡ j
kind_code_injective k j h = ground arith

module _ {F : Type 0} where
  -- `Variant.__getitem__`
  unfoldable pub at : List (Value F) → ℤ → Result (Value F)
  at = get_item

  unfoldable pub set_at : List (Value F) → ℤ → Value F → Result (List (Value F))
  set_at = set_item

  unfoldable pub append : List (Value F) → Value F → List (Value F)
  append vs v = vs ++ v ∷ []

  -- The value that is taken out, and what is left.
  unfoldable pub pop : List (Value F) → ℤ → Result (Value F × List (Value F))
  pop vs i = and_then (get_item vs i) (λ v. map_ok (λ rest. (v, rest)) (del_item vs i))

  unfoldable pub check_kind : Kind → Value F → Result (Value F)
  check_kind k v = if kind_code (kind v) == kind_code k then ok v else err type_error

  -- `_View.__getitem__` at an index; the value's payload stands for itself.
  unfoldable pub view_at : Kind → List (Value F) → ℤ → Result (Value F)
  unfolding check_kind
  view_at k vs i = and_then (get_item vs i) (check_kind k)

  -- At a slice, of which the elements are given.
  unfoldable pub view_slice : Kind → List (Value F) → Result (List (Value F))
  unfolding check_kind
  view_slice k [] = ok []
  view_slice k (v ∷ vs) = and_then (check_kind k v) (λ x. map_ok (λ xs. x ∷ xs) (view_slice k vs))

  -- A typed view at an index returns exactly the values of its kind, as the untyped list does, and
  -- raises `TypeError` at a value of another kind; the untyped list's error is passed on.
  pub view_at_iff :
      (k : Kind) (vs : List (Value F)) (i : ℤ) (v : Value F)
      → (view_at k vs i ≡ ok v) ↔ ((at vs i ≡ ok v) × (kind v ≡ k))
  unfolding view_at at
  view_at_iff k vs i v = elim_case (get_item vs i) refl
    where
      elim_case :
          (r : Result (Value F))
          → get_item vs i ≡ r
          → (and_then r (check_kind k) ≡ ok v) ↔ ((r ≡ ok v) × (kind v ≡ k))
      elim_case (err e) h = (λ p. absurd (cc p), λ p. absurd (cc (p.0)))
      elim_case (ok u) h = ground (arith, kind_code_injective (kind u) k)
