-- ===== src/Broker/Manager.antt =====
-- `ExtensionManager`: the extensions, and for each interest type the handlers in order of priority.
use gtools.Prelude.{
  ℕ, ◌-◌, List, [], ◌∷◌, Bool, ◌&&◌, not, ◌==◌, ltb, if◌then◌else◌, Option, none, some,
}
use gtools.Python.Exec.{Exec, Result, ok, err, value_error, and_then, map_ok, pure, ◌>>◌}
use gtools.Python.Struct.{Bytes, Floats}
use gtools.Python.Dict
use gtools.Python.Dict.{Dict, nat_eq, bytes_eq}
use gtools.Packet.Prepared.{PreparedPacket}
use gtools.Broker.Interests.{InterestType}
use gtools.Broker.Operands.{Library, int_le}
use gtools.Broker.Handler.{Interest, Extension, ExtensionHandler, interested}

pub record ExtensionManager (F : Type 0) : Type 0 where
  pub extensions : Dict Bytes (Extension F)
  pub interest_map : Dict InterestType (List (ExtensionHandler F))

module _ {F : Type 0} where
  abbrev pub no_extensions : ExtensionManager F
  no_extensions = record { extensions = []; interest_map = [] }

  abbrev pub handlers_or_empty : Option (List (ExtensionHandler F)) → List (ExtensionHandler F)
  handlers_or_empty none = []
  handlers_or_empty (some hs) = hs

  -- `self._interest_map[interest_type]`, a `defaultdict`
  unfoldable pub handlers : InterestType → ExtensionManager F → List (ExtensionHandler F)
  handlers i s = handlers_or_empty (Dict.lookup i s.interest_map)

  abbrev pub set_handlers :
      InterestType → List (ExtensionHandler F) → ExtensionManager F → ExtensionManager F
  set_handlers i hs s = record s { interest_map = Dict.insert i hs s.interest_map }

  unfoldable pub beat : Bytes → ℕ → ExtensionManager F → ExtensionManager F
  beat id now s = elim (Dict.lookup id s.extensions) [
    | none ↦ s
    | some ext ↦ record s {
      extensions = Dict.insert id (record ext { last_heartbeat = now }) s.extensions;
    }
  ]

  -- `insort` by the negated priority, on a list in that order: behind all handlers of at least the
  -- priority of the new one.
  unfoldable pub insort : ExtensionHandler F → List (ExtensionHandler F) → List (ExtensionHandler F)
  insort h [] = h ∷ []
  insort h (k ∷ ks) =
      let rest = insort h ks in
      if int_le h.interest.priority k.interest.priority then k ∷ rest else h ∷ k ∷ ks

  abbrev pub handler : Extension F → Interest F → ExtensionHandler F
  handler ext i = record { ext = ext; interest = i }

  -- The loop of `add_extension`.
  unfoldable pub add_interests :
      Extension F → List (Interest F) → ExtensionManager F → ExtensionManager F
  unfolding handlers insort
  add_interests ext [] s = s
  add_interests ext (i ∷ is) s =
      add_interests ext is
        (set_handlers i.interest (insort (handler ext i) (handlers i.interest s)) s)

  unfoldable pub add_extension : Extension F → ExtensionManager F → ExtensionManager F
  unfolding add_interests
  add_extension ext s =
      add_interests ext ext.interests
        (record s { extensions = Dict.insert ext.id ext s.extensions })

  unfoldable pub get_all_extension : ExtensionManager F → List (Bytes × Extension F)
  get_all_extension s = s.extensions

  -- `same` is the equality of interests, which protobuf generates.
  module _ (same : Interest F → Interest F → Bool) where
    -- `ExtensionHandler.__eq__`: one extension object, and equal interests
    unfoldable pub equal_handlers : ExtensionHandler F → ExtensionHandler F → Bool
    equal_handlers h k = (h.ext.number == k.ext.number) && same h.interest k.interest

    -- `list.remove`
    unfoldable pub remove_handler :
        ExtensionHandler F → List (ExtensionHandler F) → Result (List (ExtensionHandler F))
    unfolding equal_handlers
    remove_handler h [] = err value_error
    remove_handler h (k ∷ ks) =
        let rest = remove_handler h ks in
        if equal_handlers k h then ok ks else map_ok (λ r. k ∷ r) rest

    -- The loop of `remove_extension`.
    unfoldable pub remove_interests :
        Extension F → List (Interest F) → Exec (ExtensionManager F) Unit
    unfolding handlers remove_handler
    remove_interests ext [] s = (ok tt, s)
    remove_interests ext (i ∷ is) s =
        elim (remove_handler (handler ext i) (handlers i.interest s)) [
          | ok hs ↦ remove_interests ext is (set_handlers i.interest hs s)
          | err e ↦ (err e, s)
        ]

    abbrev pub forget : Bytes → Exec (ExtensionManager F) Unit
    forget id s = (ok tt, record s { extensions = Dict.remove id s.extensions })

    -- `remove_extension`, with what the id stands for.
    abbrev pub remove_found : Bytes → Option (Extension F) → Exec (ExtensionManager F) Unit
    remove_found id none = pure tt
    remove_found id (some ext) = do remove_interests ext ext.interests; forget id

    unfoldable pub remove_extension : Bytes → Exec (ExtensionManager F) Unit
    unfolding remove_interests
    remove_extension id s = remove_found id (Dict.lookup id s.extensions) s

    -- The ids that `sweep` finds: a heartbeat was seen, and none for longer than the threshold.
    unfoldable pub flatlined : ℕ → ℕ → Dict Bytes (Extension F) → List Bytes
    flatlined now threshold [] = []
    flatlined now threshold ((id, ext) ∷ d) =
        let rest = flatlined now threshold d in
        if not (ext.last_heartbeat == 0) && ltb threshold (now - ext.last_heartbeat)
        then id ∷ rest
        else rest

    unfoldable pub remove_all : List Bytes → Exec (ExtensionManager F) Unit
    unfolding remove_extension
    remove_all [] = pure tt
    remove_all (id ∷ ids) = do remove_extension id; remove_all ids

    unfoldable pub sweep : ℕ → ℕ → Exec (ExtensionManager F) Unit
    unfolding flatlined remove_all
    sweep now threshold s = remove_all (flatlined now threshold s.extensions) s

  module _ ⦃fl : Floats F⦄ ⦃lib : Library F⦄ where
    -- The handlers that are interested; an exception of one ends the iteration.
    unfoldable pub interested_among :
        PreparedPacket F → List (ExtensionHandler F) → Result (List (ExtensionHandler F))
    unfolding interested
    interested_among p [] = ok []
    interested_among p (h ∷ hs) =
        and_then (interested h p)
          (λ b. map_ok (λ rest. if b then h ∷ rest else rest) (interested_among p hs))

    unfoldable pub get_interested_extension :
        InterestType → PreparedPacket F → ExtensionManager F → Result (List (ExtensionHandler F))
    unfolding handlers interested_among
    get_interested_extension i p s = interested_among p (handlers i s)
