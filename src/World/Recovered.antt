-- ===== src/World/Recovered.antt =====
-- The recovery of the dropped items ends: every round of its loop moves the cursor down.
use gtools.Prelude.{
  ℕ, zero, suc, ◌+◌, ◌≤◌, ◌<◌, ◌≡◌, refl, arith, Bool, true, choose, ◌==◌, ◌||◌, Option, none, some,
  length,
}
use gtools.Python.Exec.{Exec, Result, ok, err, pure, continue, ◌>>=◌}
use gtools.Python.Struct.{Bytes, Format, unsigned, Floats, floating}
use gtools.Buffer.Raw.{Buffer, read_raw_back}
use gtools.Buffer.Values.{read_fmt, read_bytes}
use gtools.World.Dropped.{DroppedItem}
use gtools.World.Wire.{WorldData}
use gtools.World.Recover.{
  LoopState, stopped, raised, running, is_count, read_item_back, read_counts, plausible, with_item,
  after_counts, after_item, items_loop, attempt, after_items, turned, recover,
}

-- Read backwards, m moves the cursor down by n at least, where it succeeds.
record FellTo (n : ℕ) (s t : Buffer) : Type 0 where
  fallen : t.rpos + n ≤ s.rpos
  still_back : t.reverse_read ≡ true

record Falls {A : Type 0} (n : ℕ) (m : Exec Buffer A) : Type 0 where
  falls : (s t : Buffer) (v : A) → s.reverse_read ≡ true → m s ≡ (ok v, t) → FellTo n s t

read_fmt-Falls : {A : Type 0} (f : Format A) → Falls f.size (read_fmt f)
unfolding read_fmt read_raw_back
read_fmt-Falls f = record { falls = λ s t v r e. ground arith }

pure-Falls : {A : Type 0} (x : A) → Falls 0 (pure x)
pure-Falls x = record { falls = λ s t v r e. ground arith }

module _ {A B : Type 0} {m : Exec Buffer A} {a b : ℕ} where
  next-Falls :
      (k : A → Exec Buffer B) → Falls a m → ((x : A) → Falls b (k x)) → Falls (a + b) (m >>= k)
  next-Falls k p q = record { falls = λ s t v r e. go s t v r (m s) refl e }
    where
      go :
          (s t : Buffer) (v : B)
          → s.reverse_read ≡ true
          → (y : Result A × Buffer) → m s ≡ y
          → ◌≡◌ {A = Result B × Buffer} (continue y k) (ok v, t)
          → FellTo (a + b) s t
      go s t v r (ok x, u) h g =
          let low = p.falls s u x r h in
          let deep = (q x).falls u t v low.still_back g in
          record { fallen = omega (arith, low.fallen, deep.fallen); still_back = deep.still_back }
      go s t v r (err x, u) h g = absurd (cc g)

module _ {F : Type 0} ⦃fl : Floats F⦄ where
  read_item_back-Falls : Falls 16 (read_item_back {F = F})
  unfolding read_item_back
  read_item_back-Falls = next-Falls _ (read_fmt-Falls (unsigned 4)) (λ uid.
      next-Falls _ (read_fmt-Falls (unsigned 1)) (λ flags.
        next-Falls _ (read_fmt-Falls (unsigned 1)) (λ amount.
          next-Falls _ (read_fmt-Falls (floating 4)) (λ x.
            next-Falls _ (read_fmt-Falls (floating 4))
              (λ y. next-Falls _ (read_fmt-Falls (unsigned 2)) (λ id. pure-Falls _))))))

read_counts-Falls : Falls 8 read_counts
unfolding read_counts
read_counts-Falls =
    next-Falls _ (read_fmt-Falls (unsigned 4))
      (λ l. next-Falls _ (read_fmt-Falls (unsigned 4)) (λ n. pure-Falls _))

Ended : {W : Type 0} → LoopState W → Type 0
Ended (stopped w s) = Unit
Ended (raised w) = Unit
Ended running = ⊥

Got : {W : Type 0} → Option W → Type 0
Got none = ⊥
Got (some w) = Unit

module _ (J : Type 0) {F : Type 0} ⦃fl : Floats F⦄ (known : ℕ → Bool) (within : ℕ → F → Bool) where
  Ends : ℕ → Type 0
  Ends n =
      (w : WorldData J F) (s : Buffer)
      → s.reverse_read ≡ true
      → s.rpos < n
      → Ended (items_loop known within n w s)

  after_counts-Ended :
      (n : ℕ)
      → Ends n
      → (w : WorldData J F) (x : DroppedItem F) (s : Buffer) → s.reverse_read ≡ true
      → s.rpos < n
      → (y : Result (ℕ × ℕ) × Buffer) → read_counts s ≡ y
      → Ended (after_counts known within (items_loop known within n) w x s y)
  unfolding Ends Ended
  after_counts-Ended n ih w x s r low (err e, t) h = tt
  after_counts-Ended n ih w x s r low (ok (l, c), t) h =
      choose Ended (is_count c w.dropped.nb_items || x.uid == 1) tt
        (ih w _ (read_counts-Falls.falls s t (l, c) r h).still_back low)

  after_item-Ended :
      (n : ℕ)
      → Ends n
      → (w : WorldData J F) (s : Buffer) → s.reverse_read ≡ true
      → s.rpos < suc n
      → (y : Result (DroppedItem F) × Buffer) → read_item_back s ≡ y
      → Ended (after_item known within (items_loop known within n) w y)
  unfolding Ended
  after_item-Ended n ih w s r low (err e, t) h = tt
  after_item-Ended n ih w s r low (ok x, t) h =
      let f = read_item_back-Falls.falls s t x r h in
      choose Ended (plausible known within w x)
        (after_counts-Ended n ih (with_item known within x w) x t f.still_back
          (omega (arith, low, f.fallen)) (read_counts t) refl)
        tt

  items_loop-Ended : (n : ℕ) → Ends n
  unfolding Ends items_loop
  items_loop-Ended zero w s r low = absurd (omega (arith, low))
  items_loop-Ended (suc n) w s r low =
      after_item-Ended n (items_loop-Ended n) w s r low (read_item_back s) refl

  attempt-Got :
      {A : Type 0} {m : Exec Buffer A} {n : ℕ}
      → Falls n m
      → (s : Buffer) (w : WorldData J F) (k : A → Buffer → Option (WorldData J F))
      → s.reverse_read ≡ true
      → ((a : A) (t : Buffer) → FellTo n s t → Got (k a t))
      → Got (attempt known within (m s) w k)
  unfolding Got
  attempt-Got {A = A} {m} f s w k r g = go (m s) refl
    where
      go : (y : Result A × Buffer) → m s ≡ y → Got (attempt known within y w k)
      go (ok a, t) h = g a t (f.falls s t a r h)
      go (err e, t) h = tt

  after_items-Got : (y : LoopState (WorldData J F)) → Ended y → Got (after_items known within y)
  unfolding Ended Got
  after_items-Got (stopped w s) e = got_attempt (read_bytes (some 12) s)
    where
      got_attempt :
          (y : Result Bytes × Buffer)
          → Got (
              attempt known within y w
                (λ unk4 t. some (turned known within (record w { unk4 = unk4 }))))
      got_attempt (ok b, t) = tt
      got_attempt (err x, t) = tt
  after_items-Got (raised w) e = tt
  after_items-Got running e = absurd e

  recover-Got :
      (w : WorldData J F) (s : Buffer) → Got (recover known within (suc (length s.buffer)) w s)
  unfolding recover Ends
  recover-Got w s = attempt-Got (read_fmt-Falls (unsigned 4)) _ _ _ refl (λ a t f.
      attempt-Got (read_fmt-Falls (unsigned 2)) t _ _ f.still_back (λ b u g.
        attempt-Got (read_fmt-Falls (unsigned 2)) u _ _ g.still_back (λ c v h.
          attempt-Got (read_fmt-Falls (unsigned 2)) v _ _ h.still_back (λ d x i.
            attempt-Got (read_fmt-Falls (unsigned 2)) x _ _ i.still_back (λ e y j.
              after_items-Got _ (
                items_loop-Ended (suc (length s.buffer)) _ y j.still_back
                  (omega (arith, f.fallen, g.fallen, h.fallen, i.fallen, j.fallen))))))))

  Got-some : {W : Type 0} (o : Option W) → Got o → (w : W) × (o ≡ some w)
  unfolding Got
  Got-some none g = absurd g
  Got-some (some w) g = (w, refl)

  -- The recovery of a world from the end of its bytes ends, whatever the bytes are: fuel for one
  -- round more than there are bytes is enough.
  pub recover_ends :
      (w : WorldData J F) (s : Buffer)
      → (v : WorldData J F) × (recover known within (suc (length s.buffer)) w s ≡ some v)
  recover_ends w s = Got-some (recover known within (suc (length s.buffer)) w s) (recover-Got w s)
