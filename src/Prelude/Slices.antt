-- ===== src/Prelude/Slices.antt =====
-- Python's slices and comparison of byte strings, at bounds that are not negative.
use Prim.Native.Nat.{ℕ, ◌+◌, ◌-◌}
use mathlib.Core.Path.{◌≡◌, refl, sym, ap, ◌∙◌}
use mathlib.Core.Logic.{◌↔◌}
use mathlib.Core.Bool.{Bool, true, false, ◌&&◌}
use mathlib.Core.List.{List, [], ◌∷◌, ◌++◌, append_assoc}
use native.Mathlib.Omega.{arith}
use gtools.Prelude.Tests.{◌==◌}
use gtools.Prelude.Lists.{length, take, drop, take-append_length, drop-append_length}

module _ {ℓ} {A : Type ℓ} where
  -- b[i:j]
  abbrev pub slice : List A → ℕ → ℕ → List A
  slice b i j = take (j - i) (drop i b)

  -- b[i:j] = new
  abbrev pub splice : List A → ℕ → ℕ → List A → List A
  splice b i j new = take i b ++ (new ++ drop j b)

  -- The slice that stands between a front and a back.
  pub slice_middle :
      (front mid back : List A) (i j : ℕ)
      → i ≡ length front
      → j ≡ length front + length mid
      → slice (front ++ (mid ++ back)) i j ≡ mid
  slice_middle front mid back i j p q =
      ap (take (j - i)) (drop-append_length front (mid ++ back) i p)
      ∙ take-append_length mid back (j - i) (omega arith)

  pub splice_middle :
      (front old back new : List A) (i j : ℕ)
      → i ≡ length front
      → j ≡ length front + length old
      → splice (front ++ (old ++ back)) i j new ≡ front ++ (new ++ back)
  splice_middle front old back new i j p q = rw (
    take-append_length front (old ++ back) i p,
    ← append_assoc front old back,
    drop-append_length (front ++ old) back j (q ∙ sym (lengths front old)),
  )
    where
      lengths : (xs ys : List A) → length (xs ++ ys) ≡ length xs + length ys
      lengths [] ys = omega arith
      lengths (x ∷ xs) ys = omega (arith, lengths xs ys)

unfoldable pub equal : List ℕ → List ℕ → Bool
equal [] [] = true
equal (x ∷ xs) (y ∷ ys) = x == y && equal xs ys
equal _ _ = false

pub equal_iff : (a b : List ℕ) → (equal a b ≡ true) ↔ (a ≡ b)
unfolding equal
equal_iff (x ∷ a) (y ∷ b) = ground (arith, equal_iff a b)
equal_iff _ _ = ground arith

pub equal_refl : (a : List ℕ) → equal a a ≡ true
equal_refl a = (equal_iff a a).1 refl
