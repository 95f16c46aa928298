-- ===== src/Python/Struct/Fields.antt =====
-- A format string of several characters: the fields stand one behind the other.
use gtools.Prelude.{
  ◌+◌, ◌++◌, ◌≡◌, sym, take, drop, length-append, take-append_length, drop-append_length,
  All-append, arith, ==_refl,
}
use gtools.Python.Exec.{ok, and_then, map_ok}
use gtools.Python.Struct.{Format, Endian, unpack_from}
use gtools.Python.Struct.Laws.{Packs}
use gtools.Python.Struct.Words.{IsByte}

module _ {ℓ κ} {A : Type ℓ} {B : Type κ} where
  infixr 5 ◌⊗◌ ◌&◌
  abbrev pub ◌&◌ : A → B → A × B
  a & b = (a, b)

  abbrev pub ◌⊗◌ : Format A → Format B → Format (A × B)
  f ⊗ g = record {
    size = f.size + g.size;
    pack = λ e v. and_then (f.pack e v.0) (λ x. map_ok (λ y. x ++ y) (g.pack e v.1));
    unpack = λ e b. (f.unpack e (take f.size b), g.unpack e (drop f.size b));
  }

  -- Two fields pack when each of them does.
  pub both-Packs :
      {f : Format A} {g : Format B} {e : Endian} {v : A} {w : B}
      → Packs f e v
      → Packs g e w
      → Packs (f ⊗ g) e (v, w)
  both-Packs p q = record {
    bytes = p.bytes ++ q.bytes;
    packed = rw (p.packed, q.packed);
    sized = omega (arith, length-append p.bytes q.bytes, p.sized, q.sized);
    are_bytes = All-append IsByte p.bytes q.bytes p.are_bytes q.are_bytes;
    unpacked = rw (
      take-append_length p.bytes q.bytes _ (sym p.sized),
      drop-append_length p.bytes q.bytes _ (sym p.sized),
      p.unpacked,
      q.unpacked,
    );
  }

-- `struct.unpack` takes back what `struct.pack` made.
pub unpack_from-Packs {ℓ} :
    {A : Type ℓ} {f : Format A} {e : Endian} {v : A} (p : Packs f e v)
    → unpack_from f e p.bytes ≡ ok v
unfolding unpack_from
unpack_from-Packs {f = f} p = rw (p.sized, ==_refl f.size, p.unpacked)
