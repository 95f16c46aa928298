-- ===== src/World/Extra/Tempo.antt =====
-- `LockTile.set_bpm` against what the reader of lock tiles makes of any bytes.
use gtools.Prelude.{
  ℕ, zero, suc, leb, ap, subst, ◌≤◌, ◌≡◌, ◌≢◌, refl, ◌∙◌, arith, List, [], ◌∷◌, length,
  length-append, Option, none, some, ℤ, pos, negsuc,
}
use gtools.Python.Exec.{Exec, Result, ok, err, ok_injective, continue, pure, ◌>>=◌}
use gtools.Buffer.Raw.{Buffer}
use gtools.Buffer.Values.{read_u8, read_u32, read_i32}
use gtools.World.Extra.Loops.{read_many, read_if}
use gtools.World.Extra.Locks.{
  LockTile, bpm_of, kept_uid, negated, replaced_uids, with_uids, set_bpm, deserialize_lock_tile,
}

-- Whatever a reader returns, P holds of it.
Yields : {A : Type 0} → (A → Type 0) → Exec Buffer A → Type 0
Yields {A = A} P m = (s : Buffer) (y : A) → (m s).0 ≡ ok y → P y

module _ {A B : Type 0} where
  next-Yields :
      (P : B → Type 0) (Q : A → Type 0) (m : Exec Buffer A) (k : A → Exec Buffer B)
      → Yields Q m
      → ((x : A) → Q x → Yields P (k x))
      → Yields P (m >>= k)
  unfolding Yields
  next-Yields P Q m k first h s y e = go (m s) (first s) e
    where
      go : (p : Result A × Buffer) → ((x : A) → p.0 ≡ ok x → Q x) → (continue p k).0 ≡ ok y → P y
      go (ok x, t) known q = h x (known x refl) t y q
      go (err z, t) known q = absurd (cc q)

  -- The same, where it does not matter what the first reader returns.
  then-Yields :
      (P : B → Type 0) (m : Exec Buffer A) (k : A → Exec Buffer B)
      → ((x : A) → Yields P (k x))
      → Yields P (m >>= k)
  unfolding Yields
  then-Yields P m k h = next-Yields P (λ x. Unit) m k (λ s y e. tt) (λ x u. h x)

pure-Yields : {A : Type 0} (P : A → Type 0) (x : A) → P x → Yields P (pure x)
unfolding Yields
pure-Yields P x h s y e = subst P (ok_injective e) h

read_many-length :
    {A : Type 0} (n : ℕ) (r : Exec Buffer A) → Yields (λ xs. n ≡ length xs) (read_many n r)
unfolding read_many
read_many-length zero r = pure-Yields (λ xs. zero ≡ length xs) [] refl
read_many-length {A = A} (suc n) r =
    then-Yields (λ xs. suc n ≡ length xs) r (λ x s. (read_many n r >>= (λ xs. pure (x ∷ xs))) s)
      (λ x.
        next-Yields (λ xs. suc n ≡ length xs) (λ xs. n ≡ length xs) (read_many n r)
          (λ xs. pure (x ∷ xs)) (read_many-length n r)
          (λ xs e. pure-Yields (λ xs. suc n ≡ length xs) (x ∷ xs) (ap (λ n. suc n) e)))

-- The count is that of the uids, and the tempo that of the uids.
abbrev IsRead : LockTile → Type 0
IsRead y = (y.access_count ≡ length y.access_uids) × (y.bpm ≡ bpm_of y.access_uids 100)

deserialize_lock_tile-IsRead : (version : ℕ) → Yields IsRead (deserialize_lock_tile version)
unfolding deserialize_lock_tile
deserialize_lock_tile-IsRead version = then-Yields IsRead read_u8 _ (λ flags.
    then-Yields IsRead read_u32 _ (λ owner_uid. then-Yields IsRead read_u32 _ (λ access_count.
      next-Yields IsRead (λ xs. access_count ≡ length xs) (read_many access_count read_i32) _
        (read_many-length access_count read_i32)
        (λ access_uids counted.
          then-Yields IsRead (read_if (leb 12 version) read_u32 0) _ (λ minimum_level.
            then-Yields IsRead (read_if (leb 13 version) read_u32 0) _
              (λ unk1. pure-Yields IsRead _ (counted, refl)))))))

-- How many uids hold a tempo.
unfoldable pub tempos : List ℤ → ℕ
tempos [] = 0
tempos (pos v ∷ uids) = tempos uids
tempos (negsuc v ∷ uids) = suc (tempos uids)

-- Without a tempo among the uids the tempo is the one from before.
bpm_of_none : (uids : List ℤ) (d : ℕ) → tempos uids ≡ 0 → bpm_of uids d ≡ d
unfolding tempos bpm_of
bpm_of_none [] d h = refl
bpm_of_none (pos v ∷ uids) d h = bpm_of_none uids d h
bpm_of_none (negsuc v ∷ uids) d h = absurd (omega (arith, h))

-- What the loop makes of uids that hold at most one tempo: nothing, or uids that hold none.
Cleared : Option (List ℤ) → Type 0
Cleared none = Unit
Cleared (some uids) = tempos uids ≡ 0

kept_Cleared : (v : ℕ) (o : Option (List ℤ)) → Cleared o → Cleared (kept_uid v o)
unfolding Cleared tempos
kept_Cleared v none c = tt
kept_Cleared v (some uids) c = c

replaced_clears :
    (bpm : ℕ) (uids : List ℤ)
    → tempos uids ≤ 1
    → (o : Option (List ℤ)) × (replaced_uids (length uids) bpm uids ≡ ok o) × Cleared o
unfolding tempos replaced_uids Cleared
replaced_clears bpm [] h = (none, refl, tt)
replaced_clears bpm (negsuc v ∷ uids) h = (some (pos bpm ∷ uids), refl, omega (arith, h))
replaced_clears bpm (pos v ∷ uids) h =
    let (o, e, c) = replaced_clears bpm uids h in (kept_uid v o, rw e, kept_Cleared v o c)

misread :
    (bpm : ℕ) (x : LockTile) (o : Option (List ℤ))
    → IsRead x
    → bpm ≢ 100
    → Cleared o
    → ¬ IsRead (with_uids bpm x o)
unfolding Cleared
misread bpm x none h n c f =
    absurd (omega (arith, h.0, f.0, length-append x.access_uids (negated bpm ∷ [])))
misread bpm x (some uids) h n c f = n (f.1 ∙ bpm_of_none uids 100 c)

-- After a lock tile was read from some bytes, with at most one negative uid, `set_bpm` with a tempo
-- other than 100 returns, and leaves a tile that is not read from any bytes: whatever is written for
-- it, reading does not give it back.
pub set_bpm_unreadable :
    (version bpm : ℕ) (s : Buffer) (x : LockTile)
    → (deserialize_lock_tile version s).0 ≡ ok x
    → tempos x.access_uids ≤ 1
    → bpm ≢ 100
    → (y : LockTile) × (set_bpm bpm x ≡ ok y)
      × ((t : Buffer) → (deserialize_lock_tile version t).0 ≢ ok y)
unfolding set_bpm Yields
set_bpm_unreadable version bpm s x e one n =
    let h = deserialize_lock_tile-IsRead version s x e in
    let (o, r, c) = replaced_clears bpm x.access_uids one in
    (
      with_uids bpm x o,
      rw (h.0, r) refl,
      λ t q. misread bpm x o h n c (deserialize_lock_tile-IsRead version t (with_uids bpm x o) q),
    )
