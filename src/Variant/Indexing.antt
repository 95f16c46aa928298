-- ===== src/Variant/Indexing.antt =====
-- `get` reads one element without building the list, and agrees with `deserialize`.
use gtools.Prelude.{
  ℕ, zero, suc, ◌≤◌, ◌++◌, List, [], ◌∷◌, ◌≡◌, ◌≢◌, refl, sym, ◌∙◌, Option, none, some, ltb, length,
  append_assoc, append-nil, arith, get_elem?, Bool-cases, inl, inr, ltb→not_lt, pos,
}
use gtools.Python.Exec.{Exec, Result, ok, err, value_error, pure, ◌>>=◌, continue, raise, lift}
use gtools.Python.Struct.{Bytes, little, Floats}
use gtools.Buffer.Raw.{Buffer, make}
use gtools.Buffer.Values.{read_u8}
use gtools.Variant.Value.{Value}
use gtools.Variant.Wire.{read_element, read_elements, deserialize, get_element, index_of, get}
use gtools.Variant.RoundTrip.{deserialize_lem}

pair_eq : {A B : Type 0} (p : A × B) {a : A} → p.0 ≡ a → p ≡ (a, p.1)
pair_eq p h = ground arith

module _ {F : Type 0} ⦃fl : Floats F⦄ where
  -- The element of the list at the index, or the error of an index that is out of range.
  abbrev pub item : List (Value F) → ℕ → Result (Value F)
  item vs i = elim (get_elem? vs i) [ none ↦ err value_error | some v ↦ ok v ]

  -- What the two loops have in common from a state on.
  record Agrees (n : ℕ) (out r : List (Value F)) (s : Buffer) : Type 0 where
    read : List (Value F)
    result : r ≡ out ++ read
    few : length read ≤ n
    items : (i : ℕ) → (get_element n i s).0 ≡ item read i

  abbrev collect : ℕ → List (Value F) → Option (Value F) → Exec Buffer (List (Value F))
  collect n out e = elim e [ none ↦ pure out | some v ↦ read_elements n (out ++ v ∷ []) ]

  abbrev select : ℕ → ℕ → Option (Value F) → Exec Buffer (Value F)
  select n i e = elim e [
    | none ↦ raise value_error
    | some v ↦ elim i [ zero ↦ pure v | suc k ↦ get_element n k ]
  ]

  record Round (n : ℕ) (out r : List (Value F)) (p : Result (Option (Value F)) × Buffer)
      : Type 0 where
    read : List (Value F)
    result : r ≡ out ++ read
    few : length read ≤ suc n
    items : (i : ℕ) → (continue p (select n i)).0 ≡ item read i

  one-Round :
      (n : ℕ) (out r : List (Value F)) (p : Result (Option (Value F)) × Buffer) (t : Buffer)
      → ((o : List (Value F)) (s : Buffer) → read_elements n o s ≡ (ok r, t) → Agrees n o r s)
      → continue p (collect n out) ≡ (ok r, t)
      → Round n out r p
  one-Round n out r (ok none, s) t ih h = record {
    read = [];
    result = ground (arith, append-nil out);
    few = omega arith;
    items = λ i. refl;
  }
  one-Round n out r (ok (some v), s) t ih h =
      let a = ih (out ++ v ∷ []) s h in
      record {
        read = v ∷ a.read;
        result = a.result ∙ append_assoc out (v ∷ []) a.read;
        few = omega (arith, a.few);
        items = elim [ zero ↦ refl | suc k ↦ a.items k ];
      }
  one-Round n out r (err e, s) t ih h = absurd (cc h)

  read_elements-Agrees :
      (n : ℕ) (out r : List (Value F)) (s t : Buffer)
      → read_elements n out s ≡ (ok r, t)
      → Agrees n out r s
  unfolding read_elements get_element
  read_elements-Agrees zero out r s t h = record {
    read = [];
    result = ground (arith, append-nil out);
    few = omega arith;
    items = λ i. refl;
  }
  read_elements-Agrees (suc n) out r s t h =
      let a = one-Round n out r (read_element s) t (λ o u. read_elements-Agrees n o r u t) h in
      record { read = a.read; result = a.result; few = a.few; items = a.items }

  past_end : (vs : List (Value F)) (i : ℕ) → length vs ≤ i → item vs i ≡ err value_error
  past_end [] i h = refl
  past_end (v ∷ vs) zero h = absurd (omega arith)
  past_end (v ∷ vs) (suc i) h = past_end vs i (omega arith)

  after_count :
      (i : ℕ) (vs : List (Value F)) (p : Result ℕ × Buffer)
      → (continue p (λ n. read_elements n [])).0 ≡ ok vs
      → (continue p (λ n. do k ← lift (index_of (pos i) n); get_element n k)).0 ≡ item vs i
  unfolding index_of
  after_count i vs (ok n, s) h =
      let a =
        read_elements-Agrees n [] vs s (read_elements n [] s).1
          (pair_eq (read_elements n [] s) h) in
      elim (Bool-cases (ltb i n)) [
        | inl inside ↦ rw (inside, a.result) (a.items i)
        | inr outside ↦
            rw (outside, a.result)
              (sym (past_end a.read i (omega (arith, a.few, ltb→not_lt i n outside))))
      ]
  after_count i vs (err e, s) h = absurd (cc h)

  -- Where `deserialize` makes values of a message that is not empty, `get` at an index that is not
  -- negative returns the value that stands there, and raises `ValueError` past the last one, also
  -- where the message was cut short and holds fewer values than it declares.
  pub get-deserialize :
      (b : Bytes) (vs : List (Value F)) (i : ℕ)
      → b ≢ []
      → deserialize b ≡ ok vs
      → get b (pos i) ≡ item vs i
  unfolding get
  get-deserialize b vs i ne h =
      after_count i vs (read_u8 (make b little)) (sym (deserialize_lem b ne) ∙ h)
