-- ===== src/AckQueue/Delivery.antt =====
-- Items are delivered in the order in which they were put, and none is lost or delivered twice.
use gtools.Prelude.{
  List, [], ◌∷◌, ◌++◌, append_assoc, append-nil, Bool, true, Option, none, some, ◌≡◌, refl, sym, ap,
  ◌∙◌, subst,
}
use gtools.Python.Exec.{ok, err, runtime_error}
use gtools.AckQueue.Methods.{AckQueue, init, put, try_get, ack}

-- What the callers see of the queue.
pub data Event (T : Type 0) : Type 0 where
  put_event : T → Event T
  got_event : T → Event T
  ack_event : Event T

module _ {T : Type 0} where
  abbrev IsHead : Option T → List T → Type 0
  IsHead none q = Unit
  IsHead (some x) [] = ⊥
  IsHead (some x) (y ∷ q) = x ≡ y

  -- An item that was given out and not acknowledged is at the head of the queue.
  abbrev pub IsValid : AckQueue T → Type 0
  IsValid s = IsHead s.current s.queue

  abbrev pub put_items : List (Event T) → List T
  put_items [] = []
  put_items (put_event x ∷ es) = x ∷ put_items es
  put_items (got_event x ∷ es) = put_items es
  put_items (ack_event ∷ es) = put_items es

  -- The items that were acknowledged: for each acknowledgement the item that was last given out.
  abbrev pub acked_items : Option T → List (Event T) → List T
  acked_items current [] = []
  acked_items current (put_event x ∷ es) = acked_items current es
  acked_items current (got_event x ∷ es) = acked_items (some x) es
  acked_items none (ack_event ∷ es) = acked_items none es
  acked_items (some x) (ack_event ∷ es) = x ∷ acked_items none es

  put-IsValid : (x : T) (s : AckQueue T) → IsValid s → IsValid (put x s)
  unfolding put
  put-IsValid x s h = IsHead-append s.current s.queue h
    where
      IsHead-append : (c : Option T) (q : List T) → IsHead c q → IsHead c (q ++ x ∷ [])
      IsHead-append none q h = tt
      IsHead-append (some y) [] h = absurd h
      IsHead-append (some y) (z ∷ q) h = h

  try_get_lem :
      (c : Option T) (q : List T) (x : T) (t : AckQueue T)
      → IsHead c q
      → try_get (record { queue = q; current = c }) ≡ (some x, t)
      → (t ≡ record { queue = q; current = some x }) × IsHead (some x) q
  unfolding try_get
  try_get_lem (some y) q x t h e = (
    sym (ap (λ p. p.1) e) ∙ ap (λ c. record { queue = q; current = c }) (ap (λ p. p.0) e),
    subst (λ c. IsHead c q) (ap (λ p. p.0) e) h,
  )
  try_get_lem none [] x t h e = absurd (cc e)
  try_get_lem none (y ∷ q) x t h e = (
    sym (ap (λ p. p.1) e) ∙ ap (λ c. record { queue = y ∷ q; current = c }) (ap (λ p. p.0) e),
    cc (ap (λ p. p.0) e),
  )

  module _ (same : T → T → Bool) where
    ack_lem :
        (c : Option T) (q : List T) (t : AckQueue T)
        → IsHead c q
        → ack same (record { queue = q; current = c }) ≡ (ok tt, t)
        → (x : T) × (c ≡ some x) × (q ≡ x ∷ t.queue) × (t.current ≡ none)
    unfolding ack
    ack_lem none q t h e = absurd (cc e)
    ack_lem (some x) [] t h e = absurd h
    ack_lem (some x) (y ∷ q) t h e =
        (x, refl, cc (h, ap (λ p. p.1.queue) e), sym (ap (λ p. p.1.current) e))

    pub data Step : AckQueue T → Event T → AckQueue T → Type 0 where
      puts : (x : T) (s : AckQueue T) → Step s (put_event x) (put x s)
      gets : (x : T) (s t : AckQueue T) → try_get s ≡ (some x, t) → Step s (got_event x) t
      acks : (s t : AckQueue T) → ack same s ≡ (ok tt, t) → Step s ack_event t

    -- The events of all callers, in the order in which they held the lock.
    pub data Run : AckQueue T → List (Event T) → AckQueue T → Type 0 where
      stop : (s : AckQueue T) → Run s [] s
      step :
          {s t u : AckQueue T} {e : Event T} {es : List (Event T)}
          → Step s e t
          → Run t es u
          → Run s (e ∷ es) u

    Run-acked :
        {s t : AckQueue T} {es : List (Event T)}
        → Run s es t
        → IsValid s
        → acked_items s.current es ++ t.queue ≡ s.queue ++ put_items es
    unfolding put
    Run-acked (stop s) h = sym (append-nil s.queue)
    Run-acked (step (puts x s) r) h =
        Run-acked r (put-IsValid x s h) ∙ append_assoc s.queue (x ∷ []) _
    Run-acked (step (gets x s t e) r) h =
        let (u, v) = try_get_lem s.current s.queue x t h e in
        rw (sym (ap (λ a. a.current) u), sym (ap (λ a. a.queue) u))
          (Run-acked r (subst IsValid (sym u) v))
    Run-acked (step {u = w} {es = es} (acks s t e) r) h =
        let (x, c, q, n) = ack_lem s.current s.queue t h e in
        rw (c, q)
          (ap (◌∷◌ x) (
            subst (λ c. acked_items c es ++ w.queue ≡ t.queue ++ put_items es) n
              (Run-acked r (subst (λ c. IsHead c t.queue) (sym n) tt))))

    -- From an empty queue, whatever the callers do, the items that were acknowledged, each the one that
    -- was last given out, and then those still queued, are the items that were put, in that order.
    pub acked-put :
        {t : AckQueue T} {es : List (Event T)}
        → Run init es t
        → acked_items none es ++ t.queue ≡ put_items es
    acked-put r = Run-acked r tt

    Step-IsValid : {s t : AckQueue T} {e : Event T} → Step s e t → IsValid s → IsValid t
    Step-IsValid (puts x s) h = put-IsValid x s h
    Step-IsValid (gets x s t e) h =
        let (u, v) = try_get_lem s.current s.queue x t h e in subst IsValid (sym u) v
    Step-IsValid (acks s t e) h =
        let (x, c, q, n) = ack_lem s.current s.queue t h e in
        subst (λ c. IsHead c t.queue) (sym n) tt

    Run-IsValid : {s t : AckQueue T} {es : List (Event T)} → Run s es t → IsValid s → IsValid t
    Run-IsValid (stop s) h = h
    Run-IsValid (step x r) h = Run-IsValid r (Step-IsValid x h)

    ack-IsHead :
        ((x : T) → same x x ≡ true)
        → (c : Option T) (q : List T) → IsHead c q
        → (ack same (record { queue = q; current = c })).0
          ≡ elim c [ none ↦ err runtime_error | some x ↦ ok tt ]
    unfolding ack
    ack-IsHead f none q h = refl
    ack-IsHead f (some x) [] h = absurd h
    ack-IsHead f (some x) (y ∷ q) h = rw (h, f y)

    -- Where an item equals itself, an acknowledgement after any calls raises only when no item is out:
    -- the two internal errors do not happen.
    pub ack-Run :
        ((x : T) → same x x ≡ true)
        → {t : AckQueue T} {es : List (Event T)} → Run init es t
        → (ack same t).0 ≡ elim t.current [ none ↦ err runtime_error | some x ↦ ok tt ]
    ack-Run f {t} r = ack-IsHead f t.current t.queue (Run-IsValid r tt)
