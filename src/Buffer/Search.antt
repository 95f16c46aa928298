-- ===== src/Buffer/Search.antt =====
-- `offset_to`: what the search finds, and that it never ends where there is nothing to find.
use gtools.Prelude.{
  ℕ, zero, suc, ◌+◌, ◌-◌, ◌++◌, ◌<◌, [], ◌∷◌, ◌≡◌, ◌≢◌, refl, ◌∙◌, false, arith, length, drop, take,
  min, some, none, equal, equal_iff, length-drop, pos, Bool-cases, inl, inr, drop_all,
}
use native.Mathlib.Decide.{dec_lt}
use gtools.Python.Exec.{ok}
use gtools.Python.Struct.{Bytes}
use gtools.Buffer.Raw.{Buffer}
use gtools.Buffer.Values.{peek}
use gtools.Buffer.Modes.{offset_loop, offset_to}

abbrev pub unread : Buffer → Bytes
unread s = drop s.rpos s.buffer

take-min : (n : ℕ) (b : Bytes) → take (min n (length b)) b ≡ take n b
take-min zero b = ground arith
take-min (suc n) [] = ground arith
take-min (suc n) (x ∷ b) = ground (arith, take-min n b)

-- A forward `peek` shows what is unread, up to the count, and moves nothing.
pub peek_lem :
    (n : ℕ) (s : Buffer) → s.reverse_read ≡ false → peek (some n) s ≡ (ok (take n (unread s)), s)
unfolding peek
peek_lem n s r = ground (arith, window, take-min n (unread s), length-drop s.rpos s.buffer)
  where
    window : min (s.rpos + n) (length s.buffer) - s.rpos ≡ min n (length (unread s))
    window = omega (arith, length-drop s.rpos s.buffer)

-- `seq` stands at the front of the bytes.
abbrev pub StartsWith : Bytes → Bytes → Type 0
StartsWith seq b = (rest : Bytes) × (b ≡ seq ++ rest)

StartsWith-take : (seq b : Bytes) → take (length seq) b ≡ seq → StartsWith seq b
StartsWith-take [] b h = (b, refl)
StartsWith-take (x ∷ seq) [] h = absurd (cc h)
StartsWith-take (x ∷ seq) (y ∷ b) h =
    let (rest, e) = StartsWith-take seq b (cc h) in (rest, cc (h, e))

take-StartsWith : (seq b : Bytes) → StartsWith seq b → take (length seq) b ≡ seq
take-StartsWith [] b h = refl
take-StartsWith (x ∷ seq) [] h = absurd (cc h.1)
take-StartsWith (x ∷ seq) (y ∷ b) h = ground (arith, h.1, take-StartsWith seq b (h.0, cc (h.1)))

zero_right : (n : ℕ) → n + 0 ≡ n
zero_right n = omega arith

one_more : (n k : ℕ) → n + 1 + k ≡ n + suc k
one_more n k = omega arith

module _ (seq : Bytes) (start : ℕ) where
  offset_loop_hit :
      (f : ℕ) (s : Buffer)
      → s.reverse_read ≡ false
      → StartsWith seq (unread s)
      → offset_loop (suc f) seq start s ≡ some (ok (pos (s.rpos - start)), s)
  unfolding offset_loop
  offset_loop_hit f s r h = ground (
    arith,
    peek_lem (length seq) s,
    take-StartsWith seq (unread s) h,
    equal_iff (take (length seq) (unread s)) seq,
  )

  offset_loop_miss :
      (f : ℕ) (s : Buffer)
      → s.reverse_read ≡ false
      → ¬ StartsWith seq (unread s)
      → offset_loop (suc f) seq start s ≡ offset_loop f seq start (record s { rpos = s.rpos + 1 })
  unfolding offset_loop
  offset_loop_miss f s r h = ground (arith, peek_lem (length seq) s, differs)
    where
      differs : equal (take (length seq) (unread s)) seq ≡ false
      differs = elim (Bool-cases (equal (take (length seq) (unread s)) seq)) [
        | inl e ↦ absurd (
            h (StartsWith-take seq (unread s) ((equal_iff (take (length seq) (unread s)) seq).0 e)))
        | inr e ↦ e
      ]

  offset_loop_found :
      (k fuel : ℕ) (s : Buffer)
      → s.reverse_read ≡ false
      → k < fuel
      → StartsWith seq (drop (s.rpos + k) s.buffer)
      → ((j : ℕ) → j < k → ¬ StartsWith seq (drop (s.rpos + j) s.buffer))
      → offset_loop fuel seq start s
        ≡ some (ok (pos (s.rpos + k - start)), record s { rpos = s.rpos + k })
  offset_loop_found k zero s r lt h first = absurd (omega arith)
  offset_loop_found zero (suc f) s r lt h first =
      rw (zero_right s.rpos) (offset_loop_hit f s r (rw zero_right at h))
  offset_loop_found (suc k) (suc f) s r lt h first =
      offset_loop_miss f s r (λ w. first 0 (omega arith) (rw zero_right w))
      ∙ offset_loop_found k f (record s { rpos = s.rpos + 1 }) r (omega arith) (rw one_more h)
          (λ j l w. first (suc j) (omega arith) (rw (← one_more) w))
      ∙ rw one_more

  offset_loop_runs :
      (fuel : ℕ) (s : Buffer)
      → s.reverse_read ≡ false
      → ((j : ℕ) → ¬ StartsWith seq (drop (s.rpos + j) s.buffer))
      → offset_loop fuel seq start s ≡ none
  unfolding offset_loop
  offset_loop_runs zero s r never = refl
  offset_loop_runs (suc f) s r never =
      offset_loop_miss f s r (λ w. never 0 (rw zero_right w))
      ∙ offset_loop_runs f (record s { rpos = s.rpos + 1 }) r
          (λ j w. never (suc j) (rw (← one_more) w))

nothing_at_end : (seq : Bytes) → seq ≢ [] → ¬ StartsWith seq []
nothing_at_end [] ne h = ne refl
nothing_at_end (x ∷ seq) ne h = cc h.1

nowhere :
    (seq : Bytes) (s : Buffer)
    → seq ≢ []
    → ((j : ℕ) → s.rpos + j < length s.buffer → ¬ StartsWith seq (drop (s.rpos + j) s.buffer))
    → (j : ℕ) → ¬ StartsWith seq (drop (s.rpos + j) s.buffer)
nowhere seq s ne never j w = elim (dec_lt (s.rpos + j) (length s.buffer)) [
  | yes inside ↦ never j inside w
  | no past ↦ nothing_at_end seq ne (rw (drop_all (s.rpos + j) s.buffer (omega arith)) at w)
]

-- A forward search returns the distance to the first place behind the read cursor at which the
-- bytes stand, k rounds of the loop being enough to pass the places before it, and leaves the
-- buffer as it was.
pub offset_to_first :
    (seq : Bytes) (k fuel : ℕ) (s : Buffer)
    → s.reverse_read ≡ false
    → k < fuel
    → StartsWith seq (drop (s.rpos + k) s.buffer)
    → ((j : ℕ) → j < k → ¬ StartsWith seq (drop (s.rpos + j) s.buffer))
    → offset_to fuel seq s ≡ some (ok (pos k), s)
unfolding offset_to
offset_to_first seq k fuel s r lt h first =
    rw (offset_loop_found seq s.rpos k fuel s r lt h first) (ground arith)

-- A forward search for bytes, at least one, that stand nowhere behind the read cursor never ends:
-- whatever the fuel, the loop is still running. `peek` raises no `EOFError` at the end of the
-- buffer, so the -1 that the code means to return then is never returned.
pub offset_to_diverges :
    (seq : Bytes) (fuel : ℕ) (s : Buffer)
    → s.reverse_read ≡ false
    → seq ≢ []
    → ((j : ℕ) → s.rpos + j < length s.buffer → ¬ StartsWith seq (drop (s.rpos + j) s.buffer))
    → offset_to fuel seq s ≡ none
unfolding offset_to
offset_to_diverges seq fuel s r ne never =
    rw (offset_loop_runs seq s.rpos fuel s r (nowhere seq s ne never)) refl
