-- ===== src/Tests/EventBusTests.antt =====
-- One handler on every channel, one on the channel "a".
use gtools.Prelude.{[], ◌∷◌, none, some, ◌≡◌, refl, equal}
use gtools.Python.Dict
use gtools.EventBus.{
  Handler, Handlers, handlers_of, subscribe, same_handler, unsubscribe, emit, emit-subscribe,
  emit-unsubscribe,
}

abbrev global : Handler
global = record { func = 1; channel = none; event_type = 5 }

abbrev specific : Handler
specific = record { func = 2; channel = some (97 ∷ []); event_type = 5 }

abbrev one_handler : Handlers
one_handler = (5, global ∷ []) ∷ []

emit-subscribe_run : emit 5 (97 ∷ []) (subscribe specific one_handler) ≡ global ∷ specific ∷ []
unfolding emit handlers_of Dict.lookup equal
emit-subscribe_run = emit-subscribe specific one_handler 5 (97 ∷ [])

other_channel : emit 5 (98 ∷ []) (subscribe specific one_handler) ≡ global ∷ []
unfolding emit handlers_of Dict.lookup equal
other_channel = emit-subscribe specific one_handler 5 (98 ∷ [])

emit-unsubscribe_example :
    emit 5 (97 ∷ []) (unsubscribe specific (subscribe specific one_handler))
    ≡ emit 5 (97 ∷ []) one_handler
emit-unsubscribe_example =
    emit-unsubscribe specific one_handler
      (unfold handlers_of Dict.lookup same_handler in (refl, tt)) 5 (97 ∷ [])
