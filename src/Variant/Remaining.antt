-- ===== src/Variant/Remaining.antt =====
-- What is left to read, and the length prefix in front of it.
use gtools.Prelude.{
  ℕ, ◌≤◌, ◌<◌, ◌++◌, ◌∷◌, ◌≡◌, refl, sym, ap, ◌∙◌, true, false, some, ltb, length, length-append,
  not_lt→ltb, arith, drop-append_length, take-append_length, take-append_le, take, lt→ltb,
}
use gtools.Python.Exec.{ok}
use gtools.Python.Struct.{Bytes, little, unsigned as u, arrange}
use gtools.Python.Struct.Words.{le_value}
use gtools.Python.Struct.Laws.{Packs}
use gtools.Buffer.Values.{peek}
use gtools.Buffer.Seek.{remaining}
use gtools.Buffer.RoundTrip.{reading}
use gtools.Buffer.Search.{peek_lem}

pub remaining-reading : (w : ℕ) (done b : Bytes) → remaining (reading little w done b) ≡ length b
remaining-reading w done b = omega (arith, length-append done b)

pub short :
    (n w : ℕ) (done b : Bytes) → length b < n → ltb (remaining (reading little w done b)) n ≡ true
short n w done b h =
    lt→ltb (remaining (reading little w done b)) n (omega (arith, remaining-reading w done b))

pub long :
    (n w : ℕ) (done b : Bytes) → n ≤ length b → ltb (remaining (reading little w done b)) n ≡ false
long n w done b h =
    not_lt→ltb (remaining (reading little w done b)) n (omega (arith, remaining-reading w done b))

pub enough :
    (n w : ℕ) (done b rest : Bytes)
    → n ≤ length b
    → ltb (remaining (reading little w done (b ++ rest))) n ≡ false
enough n w done b rest h =
    not_lt→ltb (remaining (reading little w done (b ++ rest))) n
      (omega (arith, remaining-reading w done (b ++ rest), length-append b rest))

-- The prefix that `peek` shows is the length.
pub peek_prefix :
    (b : Bytes) (p : Packs (u 4) little (length b)) (w : ℕ) (done rest : Bytes)
    → peek (some 4) (reading little w done (p.bytes ++ rest))
      ≡ (ok p.bytes, reading little w done (p.bytes ++ rest))
peek_prefix b p w done rest =
    peek_lem 4 (reading little w done (p.bytes ++ rest)) refl
    ∙ rw (
      drop-append_length done (p.bytes ++ rest) (length done) refl,
      take-append_length p.bytes rest 4 (sym p.sized),
    )

pub peek_front :
    (front : Bytes) (w : ℕ) (done : Bytes)
    → peek (some 4) (reading little w done front) ≡ (ok (take 4 front), reading little w done front)
peek_front front w done =
    peek_lem 4 (reading little w done front) refl
    ∙ rw (drop-append_length done front (length done) refl)

-- A front that holds four bytes holds the whole length prefix.
pub whole_prefix :
    (b : Bytes) (p : Packs (u 4) little (length b)) (front back : Bytes) (x : ℕ)
    → p.bytes ++ b ≡ front ++ x ∷ back
    → 4 ≤ length front
    → take 4 front ≡ p.bytes
whole_prefix b p front back x e h =
    sym (take-append_le 4 front (x ∷ back) h)
    ∙ ap (take 4) (sym e)
    ∙ take-append_length p.bytes b 4 (sym p.sized)

pub prefix_value : (b : Bytes) (p : Packs (u 4) little (length b)) → le_value p.bytes ≡ length b
unfolding arrange
prefix_value b p = p.unpacked
