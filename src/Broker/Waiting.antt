-- ===== src/Broker/Waiting.antt =====
-- How many blocking handlers a chain has not processed, and what processing one does to that number.
use gtools.Prelude.{
  ℕ, suc, ◌≤◌, ◌<◌, List, [], ◌∷◌, Bool, true, false, not, ◌&&◌, ◌==◌, ==_iff, if◌then◌else◌,
  Option, none, some, length, All, ◌≡◌, refl, sym, ap, ◌∙◌, arith,
}
use mathlib.Core.List.{Memᴰ}
use gtools.Python.Exec.{Result, ok, err, ok_injective, and_then, map_ok}
use gtools.Python.Struct.{Bytes}
use gtools.Python.Dict
use gtools.Python.Dict.{Dict, nat_eq, bytes_eq, lookup-insert, beq_refl}
use gtools.Broker.Handler.{Interest, ExtensionHandler}
use gtools.Broker.Hashing.{Hashing, hash_interest}
use gtools.Broker.Pending.{is_blocking, is_processed, unprocessed}
use gtools.Broker.Pending.{matches_hash}

abbrev ok_or_zero : Result ℕ → ℕ
ok_or_zero (ok n) = n
ok_or_zero (err e) = 0

abbrev is_done : Option ℕ → ℕ → Bool
is_done none m = false
is_done (some n) m = n == m

module _ {F : Type 0} where
  module _ (hash : Hashing F) where
    -- The hash of an interest, or 0 where it raises.
    unfoldable pub digest : Interest F → ℕ
    unfolding hash_interest
    digest i = ok_or_zero (hash_interest hash i)

    pub digest_ok : (i : Interest F) (n : ℕ) → hash_interest hash i ≡ ok n → digest i ≡ n
    unfolding digest
    digest_ok i n e = ap ok_or_zero e

    abbrev pub counts : Dict Bytes ℕ → ExtensionHandler F → Bool
    counts d k = is_blocking k && not (is_done (Dict.lookup k.ext.id d) (digest k.interest))

    abbrev pub left_over : Dict Bytes ℕ → List (ExtensionHandler F) → List (ExtensionHandler F)
    left_over d [] = []
    left_over d (k ∷ hs) = if counts d k then k ∷ left_over d hs else left_over d hs

    pub unprocessed-left_over :
        (d : Dict Bytes ℕ) (hs ks : List (ExtensionHandler F))
        → unprocessed hash d hs ≡ ok ks
        → ks ≡ left_over d hs
    unfolding unprocessed is_processed digest
    unprocessed-left_over d [] ks e = cc e
    unprocessed-left_over d (k ∷ hs) ks e =
        go (is_blocking k) (Dict.lookup k.ext.id d) (hash_interest hash k.interest)
          (unprocessed hash d hs) (unprocessed-left_over d hs) e
      where
        go :
            (b : Bool) (o : Option ℕ) (r : Result ℕ) (u : Result (List (ExtensionHandler F)))
            → ((js : List (ExtensionHandler F)) → u ≡ ok js → js ≡ left_over d hs)
            → (if b
                then and_then (matches_hash o r) (λ b. map_ok (λ js. if b then js else k ∷ js) u)
                else u)
              ≡ ok ks
            → ks
              ≡ (if b && not (is_done o (ok_or_zero r)) then k ∷ left_over d hs else left_over d hs)
        go false o r u later e = later ks e
        go true none r (ok js) later e = sym (ok_injective e) ∙ ap (λ l. k ∷ l) (later js refl)
        go true none r (err x) later e = absurd (cc e)
        go true (some n) (ok m) (ok js) later e = ground (arith, later js refl)
        go true (some n) (ok m) (err x) later e = absurd (cc e)
        go true (some n) (err x) u later e = absurd (cc e)

    -- How many blocking handlers were not processed.
    abbrev pub waiting : Dict Bytes ℕ → List (ExtensionHandler F) → ℕ
    waiting d hs = length (left_over d hs)

    -- The two handlers are not blocking handlers of one extension whose interests differ in the hash.
    abbrev pub IsAlone : ExtensionHandler F → ExtensionHandler F → Type 0
    IsAlone h k =
        is_blocking h ≡ true
        → is_blocking k ≡ true
        → h.ext.id ≡ k.ext.id
        → digest h.interest ≡ digest k.interest

    abbrev pub processed_now : Dict Bytes ℕ → ExtensionHandler F → Dict Bytes ℕ
    processed_now d h = Dict.insert h.ext.id (digest h.interest) d

    counts-insert :
        (d : Dict Bytes ℕ) (h k : ExtensionHandler F)
        → is_blocking h ≡ true
        → IsAlone h k
        → counts (processed_now d h) k
          ≡ (if bytes_eq.beq h.ext.id k.ext.id then false else counts d k)
    counts-insert d h k blocking one =
        rw (lookup-insert h.ext.id k.ext.id (digest h.interest) d)
          (go (bytes_eq.beq h.ext.id k.ext.id) refl)
      where
        go :
            (b : Bool)
            → bytes_eq.beq h.ext.id k.ext.id ≡ b
            → (is_blocking k
                && not (
                    is_done
                      (if b then some (digest h.interest) else Dict.lookup k.ext.id d)
                      (digest k.interest)))
              ≡ (if b then false else counts d k)
        go true e = own (is_blocking k) refl
          where
            own :
                (b : Bool)
                → is_blocking k ≡ b
                → (b && not (is_done (some (digest h.interest)) (digest k.interest))) ≡ false
            own true at = ap not (
                (==_iff (digest h.interest) (digest k.interest)).1
                  (one blocking at ((bytes_eq.beq_iff h.ext.id k.ext.id).0 e)))
            own false at = refl
        go false e = refl

    counts_blocking :
        (d : Dict Bytes ℕ) (h : ExtensionHandler F) → counts d h ≡ true → is_blocking h ≡ true
    counts_blocking d h c =
        both_left (is_blocking h) (not (is_done (Dict.lookup h.ext.id d) (digest h.interest))) c
      where
        both_left : (a b : Bool) → (a && b) ≡ true → a ≡ true
        both_left true b e = refl
        both_left false b e = e

    length-left_over :
        (d : Dict Bytes ℕ) (k : ExtensionHandler F) (hs : List (ExtensionHandler F))
        → waiting d (k ∷ hs) ≡ (if counts d k then suc (waiting d hs) else waiting d hs)
    length-left_over d k hs = ground arith

    waiting-insert-le :
        (d : Dict Bytes ℕ) (h : ExtensionHandler F) (hs : List (ExtensionHandler F))
        → is_blocking h ≡ true
        → All (IsAlone h) hs
        → waiting (processed_now d h) hs ≤ waiting d hs
    waiting-insert-le d h [] blocking one = omega arith
    waiting-insert-le d h (k ∷ hs) blocking one =
        rw
          (
            length-left_over (processed_now d h) k hs,
            length-left_over d k hs,
            counts-insert d h k blocking one.0,
          )
          (go (counts d k) (bytes_eq.beq h.ext.id k.ext.id)
            (waiting-insert-le d h hs blocking one.1))
      where
        go :
            (c b : Bool)
            → waiting (processed_now d h) hs ≤ waiting d hs
            → (if (if b then false else c)
                then suc (waiting (processed_now d h) hs)
                else waiting (processed_now d h) hs)
              ≤ (if c then suc (waiting d hs) else waiting d hs)
        go true true p = omega arith
        go true false p = omega arith
        go false true p = omega arith
        go false false p = omega arith

    pub waiting-insert-lt :
        (d : Dict Bytes ℕ) (h : ExtensionHandler F) (hs : List (ExtensionHandler F))
        → Memᴰ h hs
        → counts d h ≡ true
        → All (IsAlone h) hs
        → waiting (processed_now d h) hs < waiting d hs
    waiting-insert-lt d h [] m c one = elim m [ ]
    waiting-insert-lt d h (k ∷ hs) (Memᴰ.head e) c one =
        rw
          (
            length-left_over (processed_now d h) k hs,
            length-left_over d k hs,
            counts-insert d h k (counts_blocking d h c) one.0,
            ← e,
            c,
            beq_refl h.ext.id,
          )
          (omega (arith, waiting-insert-le d h hs (counts_blocking d h c) one.1))
    waiting-insert-lt d h (k ∷ hs) (Memᴰ.tail m) c one =
        rw
          (
            length-left_over (processed_now d h) k hs,
            length-left_over d k hs,
            counts-insert d h k (counts_blocking d h c) one.0,
          )
          (go (counts d k) (bytes_eq.beq h.ext.id k.ext.id) (waiting-insert-lt d h hs m c one.1))
      where
        go :
            (c b : Bool)
            → waiting (processed_now d h) hs < waiting d hs
            → (if (if b then false else c)
                then suc (waiting (processed_now d h) hs)
                else waiting (processed_now d h) hs)
              < (if c then suc (waiting d hs) else waiting d hs)
        go true true p = omega arith
        go true false p = omega arith
        go false true p = omega arith
        go false false p = omega arith
