-- ===== src/Broker/Playback.antt =====
-- The order of the heap of the scheduler, and its entries as those of one more push.
use gtools.Prelude.{
  ℕ, ltb, ◌+◌, ◌⊎◌, inl, inr, Bool-cases, ◌<◌, List, [], ◌∷◌, Bool, true, false, if◌then◌else◌, All,
  choose, ◌≡◌, refl, arith,
}
use gtools.Broker.Scheduler.{Entry, before, heappush}

before_trans : (a b c : Entry) → before a b ≡ true → before b c ≡ true → before a c ≡ true
before_trans a b c h k = ground arith

-- An entry of a later push stands behind where it does not stand before.
before_total : (a b : Entry) → b.seq < a.seq → before a b ≡ false → before b a ≡ true
before_total a b h k = ground arith

unfoldable pub IsHeap : List Entry → Type 0
IsHeap [] = Unit
IsHeap (e ∷ es) = All (λ f. before e f ≡ true) es × IsHeap es

-- Each entry is numbered below n.
abbrev pub Numbered : ℕ → List Entry → Type 0
Numbered n es = All (λ e. e.seq < n) es

pub heappush-All :
    (P : Entry → Type 0) (e : Entry) (es : List Entry) → P e → All P es → All P (heappush e es)
unfolding heappush
heappush-All P e [] p all = (p, tt)
heappush-All P e (f ∷ fs) p all =
    choose (All P) (before e f) (p, all) (all.0, heappush-All P e fs p all.1)

before-All :
    (e f : Entry) (es : List Entry)
    → before e f ≡ true
    → All (λ g. before f g ≡ true) es
    → All (λ g. before e g ≡ true) es
before-All e f [] h all = tt
before-All e f (g ∷ es) h all = (before_trans e f g h all.0, before-All e f es h all.1)

pub heappush-IsHeap :
    (e : Entry) (es : List Entry) → Numbered e.seq es → IsHeap es → IsHeap (heappush e es)
unfolding heappush IsHeap
heappush-IsHeap e [] n o = (tt, tt)
heappush-IsHeap e (f ∷ fs) n o = go (before e f) refl (heappush-IsHeap e fs n.1 o.1)
  where
    go :
        (b : Bool)
        → before e f ≡ b
        → IsHeap (heappush e fs)
        → IsHeap (if b then e ∷ f ∷ fs else f ∷ heappush e fs)
    go true h later = ((h, before-All e f fs h o.0), o)
    go false h later =
        (heappush-All (λ g. before f g ≡ true) e fs (before_total e f n.0 h) o.0, later)

-- The earlier time stamp stands first, and of equal ones the earlier push.
abbrev pub IsBefore : Entry → Entry → Type 0
IsBefore a b = (a.stamp < b.stamp) ⊎ ((a.stamp ≡ b.stamp) × (a.seq < b.seq))

abbrev pub IsSorted : List Entry → Type 0
IsSorted [] = Unit
IsSorted (e ∷ es) = All (IsBefore e) es × IsSorted es

before_lem : (a b : Entry) → before a b ≡ true → IsBefore a b
before_lem a b h = elim (Bool-cases (ltb a.stamp b.stamp)) [
  | inl e ↦ inl (ground arith)
  | inr e ↦ inr (ground arith, ground arith)
]

before-All_lem :
    (e : Entry) (es : List Entry) → All (λ f. before e f ≡ true) es → All (IsBefore e) es
before-All_lem e [] h = tt
before-All_lem e (f ∷ fs) h = (before_lem e f h.0, before-All_lem e fs h.1)

pub IsSorted-heap : (es : List Entry) → IsHeap es → IsSorted es
unfolding IsHeap
IsSorted-heap [] h = tt
IsSorted-heap (e ∷ es) h = (before-All_lem e es h.0, IsSorted-heap es h.1)

-- The sum of a number of each entry.
unfoldable pub sum_over : (Entry → ℕ) → List Entry → ℕ
sum_over f [] = 0
sum_over f (e ∷ es) = f e + sum_over f es

pub sum_over-heappush :
    (f : Entry → ℕ) (e : Entry) (es : List Entry) → sum_over f (heappush e es) ≡ f e + sum_over f es
unfolding heappush sum_over
sum_over-heappush f e [] = refl
sum_over-heappush f e (g ∷ gs) = ground (arith, sum_over-heappush f e gs)
