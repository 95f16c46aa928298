-- ===== src/Broker/Handler.antt =====
-- handler.py: an interest of an extension, and the packets that it is interested in.
use gtools.Prelude.{
  ℕ, List, [], Bool, true, false, not, ◌==◌, if◌then◌else◌, Option, none, some, ℤ, ◌||◌,
}
use gtools.Python.Exec.{Result, ok, err, attribute_error, and_then, map_ok}
use gtools.Python.Struct.{Bytes, Floats}
use gtools.Variant.Wire
use gtools.Packet.Types.{NetType, net_code, generic_text, game_message, track}
use gtools.Packet.Tank.{TankPacket}
use gtools.Packet.Net.{Message, text, get_tank}
use gtools.Packet.Prepared.{PreparedPacket}
use gtools.Broker.Interests.{
  InterestType, interest_peer_connect, interest_peer_disconnect, interest_server_hello,
  interest_generic_text, interest_game_message, interest_tank_packet, interest_error,
  interest_track, interest_client_log_request, interest_client_log_response, interest_call_function,
  tank_interest, is_tank_interest,
}
use gtools.Broker.Operands.{Library}
use gtools.Broker.Matching.{Clause, eval_strkv, eval_tank, eval_variant}

-- The oneof `payload` of an interest: its field number, its `where` if it has one, and `variant`.
pub data Payload (F : Type 0) : Type 0 where
  absent : Payload F
  given : ℕ → Option (List (Clause F)) → List (Clause F) → Payload F

pub record Interest (F : Type 0) : Type 0 where
  pub interest : InterestType
  pub priority : ℤ
  pub blocking_mode : ℕ
  pub direction : ℕ
  pub id : ℕ
  pub payload : Payload F

-- `number` tells one object from another, as `is` does. `beat` changes the object in the dictionary
-- of extensions only: the handlers that hold it do not read its `last_heartbeat`.
pub record Extension (F : Type 0) : Type 0 where
  pub number : ℕ
  pub id : Bytes
  pub interests : List (Interest F)
  pub last_heartbeat : ℕ

pub record ExtensionHandler (F : Type 0) : Type 0 where
  pub ext : Extension F
  pub interest : Interest F

-- DIRECTION_UNSPECIFIED
abbrev pub unspecified : ℕ
unspecified = 0

module _ {F : Type 0} where
  -- `self.interest.generic_text.where` and its like: empty unless the payload is that field.
  abbrev pub where_of : ℕ → Payload F → List (Clause F)
  where_of field absent = []
  where_of field (given tag none vs) = []
  where_of field (given tag (some cs) vs) = if tag == field then cs else []

  -- `self.interest.call_function.variant`
  abbrev pub variant_of : Payload F → List (Clause F)
  variant_of absent = []
  variant_of (given tag cs vs) = if tag == 17 then vs else []

  abbrev pub direction_fits : Interest F → ℕ → Bool
  direction_fits i direction = if i.direction == unspecified then true else i.direction == direction

  module _ ⦃fl : Floats F⦄ ⦃lib : Library F⦄ where
    -- The `where` of whatever payload there is; a payload without one raises.
    unfoldable pub payload_interested : TankPacket F → Payload F → Result Bool
    payload_interested t absent = ok true
    payload_interested t (given tag none vs) = err attribute_error
    payload_interested t (given tag (some cs) vs) = ok (eval_tank t cs)

    unfoldable pub call_interested : TankPacket F → Interest F → Result Bool
    call_interested t i =
        if i.interest == interest_call_function
        then map_ok (λ v. eval_variant v (variant_of i.payload)) (Wire.deserialize t.extended_data)
        else ok true

    unfoldable pub tank_interested : TankPacket F → Interest F → Result Bool
    unfolding payload_interested call_interested
    tank_interested t i =
        if not (i.interest == tank_interest t.type)
        then ok false
        else and_then (payload_interested t i.payload)
            (λ b. if b then call_interested t i else ok false)

    -- The match on the type of the interest, for the types of a packet's message.
    unfoldable pub text_interested : NetType → ℕ → NetType → Message F → Payload F → Bool
    text_interested wanted field type (text s) p =
        if net_code type == net_code wanted then eval_strkv s (where_of field p) else false
    text_interested wanted field type m p = false

    abbrev pub any_tank_interested : Interest F → TankPacket F → Result Bool
    any_tank_interested i t =
        if i.interest == interest_tank_packet
        then ok (eval_tank t (where_of 11 i.payload))
        else tank_interested t i

    abbrev pub type_interested : Interest F → PreparedPacket F → Result Bool
    type_interested i p =
        let type = p.packet.type in
        let m = p.packet.message in
        if (i.interest == interest_peer_connect) || (i.interest == interest_peer_disconnect)
        then ok false
        else if i.interest == interest_server_hello
        then ok (net_code type == 1)
        else if i.interest == interest_generic_text
        then ok (text_interested generic_text 9 type m i.payload)
        else if i.interest == interest_game_message
        then ok (text_interested game_message 10 type m i.payload)
        else if (i.interest == interest_tank_packet) || is_tank_interest i.interest
        then (if net_code type == 4
            then and_then (get_tank p.packet) (any_tank_interested i)
            else ok false)
        else if i.interest == interest_error
        then ok (net_code type == 5)
        else if i.interest == interest_track
        then ok (text_interested track 13 type m i.payload)
        else if i.interest == interest_client_log_request
        then ok (net_code type == 7)
        else if i.interest == interest_client_log_response
        then ok (net_code type == 8)
        else ok true

    unfoldable pub interested : ExtensionHandler F → PreparedPacket F → Result Bool
    unfolding text_interested tank_interested
    interested h p =
        if direction_fits h.interest p.direction then type_interested h.interest p else ok false
