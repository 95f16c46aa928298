-- ===== src/Python/Dict.antt =====
-- Python's `dict`: pairs in the order of insertion, a key once. A new key goes to the end, and an
-- old one keeps its place.
use gtools.Prelude.{
  ℕ, List, [], ◌∷◌, ◌++◌, ◌≡◌, ◌≢◌, ◌↔◌, ◌⊎◌, refl, Bool, true, false, Option, none, some,
  if◌then◌else◌, ◌==◌, ==_iff, equal, equal_iff, arith, All, choose, subst, Bool-cases, inl, inr,
}

pub record Eq (K : Type 0) : Type 0 where
  pub beq : K → K → Bool
  pub beq_iff : (a b : K) → (beq a b ≡ true) ↔ (a ≡ b)

instance abbrev pub nat_eq : Eq ℕ
nat_eq = record { beq = ◌==◌; beq_iff = ==_iff }

instance abbrev pub bytes_eq : Eq (List ℕ)
bytes_eq = record { beq = equal; beq_iff = equal_iff }

module _ {K : Type 0} ⦃e : Eq K⦄ where
  pub beq_refl : (k : K) → e.beq k k ≡ true
  beq_refl k = (e.beq_iff k k).1 refl

  pub beq_ne : (j k : K) → j ≢ k → e.beq j k ≡ false
  beq_ne j k h = elim (Bool-cases (e.beq j k)) [
    | inl t ↦ absurd (h ((e.beq_iff j k).0 t))
    | inr f ↦ f
  ]

abbrev pub Dict : Type 0 → Type 0 → Type 0
Dict K V = List (K × V)

module _ {K V : Type 0} ⦃e : Eq K⦄ where
  unfoldable pub lookup : K → Dict K V → Option V
  lookup k [] = none
  lookup k ((j, v) ∷ d) = if e.beq j k then some v else lookup k d

  -- d[k] = v
  unfoldable pub insert : K → V → Dict K V → Dict K V
  insert k v [] = (k, v) ∷ []
  insert k v ((j, w) ∷ d) = if e.beq j k then (k, v) ∷ d else (j, w) ∷ insert k v d

  -- del d[k], d.pop(k, None)
  unfoldable pub remove : K → Dict K V → Dict K V
  remove k [] = []
  remove k ((j, w) ∷ d) = let rest = remove k d in if e.beq j k then rest else (j, w) ∷ rest

  -- `k in d`
  unfoldable pub contains : K → Dict K V → Bool
  unfolding lookup
  contains k d = elim (lookup k d) [ none ↦ false | some v ↦ true ]

  pub lookup-insert :
      (k j : K) (v : V) (d : Dict K V)
      → lookup j (insert k v d) ≡ (if e.beq k j then some v else lookup j d)
  unfolding lookup insert
  lookup-insert k j v [] = refl
  lookup-insert k j v ((i, w) ∷ d) =
      ground (arith, e.beq_iff k j, e.beq_iff i k, e.beq_iff i j, lookup-insert k j v d)

  pub lookup-remove :
      (k j : K) (d : Dict K V) → lookup j (remove k d) ≡ (if e.beq k j then none else lookup j d)
  unfolding lookup remove
  lookup-remove k j [] = ground arith
  lookup-remove k j ((i, w) ∷ d) =
      ground (arith, e.beq_iff k j, e.beq_iff i k, e.beq_iff i j, lookup-remove k j d)

  pub remove-insert : (k : K) (v : V) (d : Dict K V) → remove k (insert k v d) ≡ remove k d
  unfolding remove insert
  remove-insert k v [] = ground (arith, beq_refl k)
  remove-insert k v ((j, w) ∷ d) = ground (arith, beq_refl k, remove-insert k v d)

  -- A `dict` built from pairs has each key once.
  unfoldable pub IsDict : Dict K V → Type 0
  IsDict [] = Unit
  IsDict ((k, v) ∷ d) = (lookup k d ≡ none) × IsDict d

  pub insert_new :
      (k : K) (v : V) (d : Dict K V) → lookup k d ≡ none → insert k v d ≡ d ++ (k, v) ∷ []
  unfolding lookup insert
  insert_new k v [] h = refl
  insert_new k v ((j, w) ∷ d) h = ground (arith, insert_new k v d)

  -- In a `dict`, a key stands once.
  pub IsDict-append :
      (a : Dict K V) (k : K) (v : V) (d : Dict K V) → IsDict (a ++ (k, v) ∷ d) → lookup k a ≡ none
  unfolding IsDict lookup
  IsDict-append [] k v d h = refl
  IsDict-append ((j, w) ∷ a) k v d h =
      rw (differ (Bool-cases (e.beq j k))) (IsDict-append a k v d h.1)
    where
      lookup_later : (a : Dict K V) → e.beq j k ≡ true → lookup j (a ++ (k, v) ∷ d) ≢ none
      lookup_later [] t n = ground (arith, e.beq_iff j k, e.beq_iff k j)
      lookup_later ((i, u) ∷ a) t n = ground (arith, lookup_later a t)

      differ : (e.beq j k ≡ true) ⊎ (e.beq j k ≡ false) → e.beq j k ≡ false
      differ (inl t) = absurd (lookup_later a t h.0)
      differ (inr f) = f

  module _ (P : K × V → Type 0) where
    pub All-insert : (k : K) (v : V) (d : Dict K V) → P (k, v) → All P d → All P (insert k v d)
    unfolding insert
    All-insert k v [] p h = (p, tt)
    All-insert k v ((j, w) ∷ d) p h =
        choose (All P) (e.beq j k) (p, h.1) (h.0, All-insert k v d p h.1)

    pub All-remove : (k : K) (d : Dict K V) → All P d → All P (remove k d)
    unfolding remove
    All-remove k [] h = tt
    All-remove k ((j, w) ∷ d) h =
        choose (All P) (e.beq j k) (All-remove k d h.1) (h.0, All-remove k d h.1)

    pub All-lookup : (k : K) (v : V) (d : Dict K V) → All P d → lookup k d ≡ some v → P (k, v)
    unfolding lookup
    All-lookup k v [] h x = absurd (cc x)
    All-lookup k v ((j, w) ∷ d) h x = go (e.beq j k) refl x (All-lookup k v d h.1)
      where
        same : some w ≡ some v → w ≡ v
        same p = cc p

        go :
            (b : Bool)
            → e.beq j k ≡ b
            → (if b then some w else lookup k d) ≡ some v
            → (lookup k d ≡ some v → P (k, v))
            → P (k, v)
        go true t y rec =
            subst (λ i. P (i, v)) ((e.beq_iff j k).0 t) (subst (λ u. P (j, u)) (same y) h.0)
        go false t y rec = rec y
