-- ===== src/EventBus.antt =====
-- gtools/core/eventbus.py: the handlers of each event type, and what an event calls.
use gtools.Prelude.{
  ℕ, List, [], ◌∷◌, ◌++◌, append-nil, All, Bool, true, false, ◌&&◌, ◌==◌, ==_refl, ==_iff, Option,
  none, some, if◌then◌else◌, ◌≡◌, refl, ap, ◌∙◌, arith,
}
use gtools.Python.Struct.{Bytes}
use gtools.Python.Dict
use gtools.Python.Dict.{Dict, nat_eq, bytes_eq, lookup-insert, beq_refl}

-- Functions and event types are told apart by number; the channel `none` is every channel.
pub record Handler : Type 0 where
  pub func : ℕ
  pub channel : Option Bytes
  pub event_type : ℕ

-- The `_handlers`, a `defaultdict` of lists.
abbrev pub Handlers : Type 0
Handlers = Dict ℕ (List Handler)

abbrev or_empty : Option (List Handler) → List Handler
or_empty none = []
or_empty (some hs) = hs

unfoldable pub handlers_of : ℕ → Handlers → List Handler
handlers_of event_type s = or_empty (Dict.lookup event_type s)

-- `subscribe`, and `register`, which makes the same handler
unfoldable pub subscribe : Handler → Handlers → Handlers
unfolding handlers_of
subscribe h s = Dict.insert h.event_type (handlers_of h.event_type s ++ h ∷ []) s

abbrev pub same_channel : Option Bytes → Option Bytes → Bool
same_channel none none = true
same_channel none (some c) = false
same_channel (some b) none = false
same_channel (some b) (some c) = bytes_eq.beq b c

-- The `==` of the data class
unfoldable pub same_handler : Handler → Handler → Bool
same_handler h k =
    (h.func == k.func) && (same_channel h.channel k.channel && (h.event_type == k.event_type))

-- `list.remove`, the first equal one; its ValueError is passed over.
unfoldable pub remove_first : Handler → List Handler → List Handler
unfolding same_handler
remove_first h [] = []
remove_first h (k ∷ ks) = let rest = remove_first h ks in if same_handler k h then ks else k ∷ rest

-- The function that `subscribe` returns
unfoldable pub unsubscribe : Handler → Handlers → Handlers
unfolding handlers_of remove_first
unsubscribe h s = Dict.insert h.event_type (remove_first h (handlers_of h.event_type s)) s

abbrev pub listens : Bytes → Option Bytes → Bool
listens channel none = true
listens channel (some c) = bytes_eq.beq c channel

unfoldable pub listening : Bytes → List Handler → List Handler
listening channel [] = []
listening channel (h ∷ hs) =
    let rest = listening channel hs in if listens channel h.channel then h ∷ rest else rest

-- `emit`: the handlers that it calls or hands to the executor, in order
unfoldable pub emit : ℕ → Bytes → Handlers → List Handler
unfolding handlers_of listening
emit event_type channel s = listening channel (handlers_of event_type s)

listening-append :
    (c : Bytes) (hs ks : List Handler) → listening c (hs ++ ks) ≡ listening c hs ++ listening c ks
unfolding listening
listening-append c [] ks = refl
listening-append c (h ∷ hs) ks = ground (arith, listening-append c hs ks)

handlers_of-subscribe :
    (h : Handler) (s : Handlers) (t : ℕ)
    → handlers_of t (subscribe h s)
      ≡ (if h.event_type == t then handlers_of t s ++ h ∷ [] else handlers_of t s)
unfolding handlers_of subscribe
handlers_of-subscribe h s t =
    ground (arith, lookup-insert h.event_type t (handlers_of h.event_type s ++ h ∷ []) s)

-- A new handler is called after those before it, by the events of its type on its channel, and the
-- calls of all other events stay as they were.
pub emit-subscribe :
    (h : Handler) (s : Handlers) (t : ℕ) (c : Bytes)
    → emit t c (subscribe h s)
      ≡ (if (h.event_type == t) && listens c h.channel then emit t c s ++ h ∷ [] else emit t c s)
unfolding emit listening
emit-subscribe h s t c = ground (
  arith,
  handlers_of-subscribe h s t,
  listening-append c (handlers_of t s) (h ∷ []),
  append-nil (listening c (handlers_of t s)),
)

same_channel_refl : (c : Option Bytes) → same_channel c c ≡ true
same_channel_refl none = refl
same_channel_refl (some b) = beq_refl b

same_handler_refl : (h : Handler) → same_handler h h ≡ true
unfolding same_handler
same_handler_refl h = rw (==_refl h.func, same_channel_refl h.channel, ==_refl h.event_type)

remove_first_last :
    (h : Handler) (hs : List Handler)
    → All (λ k. same_handler k h ≡ false) hs
    → remove_first h (hs ++ h ∷ []) ≡ hs
unfolding remove_first
remove_first_last h [] p = rw (same_handler_refl h)
remove_first_last h (k ∷ hs) p = rw (p.0, remove_first_last h hs p.1)

handlers_of-unsubscribe :
    (h : Handler) (s : Handlers) (t : ℕ)
    → handlers_of t (unsubscribe h s)
      ≡ (if h.event_type == t then remove_first h (handlers_of h.event_type s) else handlers_of t s)
unfolding handlers_of unsubscribe
handlers_of-unsubscribe h s t =
    ground (arith, lookup-insert h.event_type t (remove_first h (handlers_of h.event_type s)) s)

-- Where no equal handler is there before, unsubscribing what was subscribed gives every event the
-- calls that it had.
pub emit-unsubscribe :
    (h : Handler) (s : Handlers)
    → All (λ k. same_handler k h ≡ false) (handlers_of h.event_type s)
    → (t : ℕ) (c : Bytes) → emit t c (unsubscribe h (subscribe h s)) ≡ emit t c s
unfolding emit
emit-unsubscribe h s p t c =
    ap (listening c) (handlers_of-unsubscribe h (subscribe h s) t ∙ back (h.event_type == t) refl)
  where
    own : handlers_of h.event_type (subscribe h s) ≡ handlers_of h.event_type s ++ h ∷ []
    own = handlers_of-subscribe h s h.event_type ∙ rw (==_refl h.event_type) refl

    back :
        (b : Bool)
        → (h.event_type == t) ≡ b
        → (if b
            then remove_first h (handlers_of h.event_type (subscribe h s))
            else handlers_of t (subscribe h s))
          ≡ handlers_of t s
    back true e =
        ap (remove_first h) own
        ∙ remove_first_last h (handlers_of h.event_type s) p
        ∙ ap (λ i. handlers_of i s) ((==_iff h.event_type t).0 e)
    back false e = handlers_of-subscribe h s t ∙ rw e refl
