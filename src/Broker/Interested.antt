-- ===== src/Broker/Interested.antt =====
-- When an extension is shown a packet.
use gtools.Prelude.{
  ℕ, ◌≤◌, List, [], ◌∷◌, Bool, true, false, ◌==◌, if◌then◌else◌, ◌⊎◌, ◌≡◌, refl, sym, ◌∙◌, All,
  arith,
}
use gtools.Python.Exec.{Result, ok, err, and_then}
use gtools.Python.Struct.{Floats}
use gtools.Packet.Types.{net_code}
use gtools.Packet.Tank.{TankPacket}
use gtools.Packet.Net.{get_tank}
use gtools.Packet.Prepared.{PreparedPacket}
use gtools.Broker.Interests.{tank_interest, is_tank_interest, tank_interests, member}
use gtools.Broker.Operands.{Library}
use gtools.Broker.Handler.{
  ExtensionHandler, Interest, unspecified, direction_fits, tank_interested, type_interested,
  interested,
}

member-ge : (k n : ℕ) (ms : List ℕ) → All (λ m. k ≤ m) ms → member n ms ≡ true → k ≤ n
member-ge k n [] h e = absurd (cc e)
member-ge k n (m ∷ ms) h e = ground (arith, member-ge k n ms h.1)

is_tank_interest-ge : (i : ℕ) → is_tank_interest i ≡ true → 11 ≤ i
unfolding is_tank_interest
is_tank_interest-ge i e = member-ge 11 i tank_interests (omega arith) e

module _ {F : Type 0} ⦃lib : Library F⦄ where
  module _ ⦃fl : Floats F⦄ where
    tank_interested_type :
        (t : TankPacket F) (i : Interest F)
        → tank_interested t i ≡ ok true
        → i.interest ≡ tank_interest t.type
    unfolding tank_interested
    tank_interested_type t i e = ground arith

    type_interested_lem :
        (i : Interest F) (p : PreparedPacket F)
        → is_tank_interest i.interest ≡ true
        → 11 ≤ i.interest
        → type_interested i p ≡ (
            if net_code p.packet.type == 4
            then and_then (get_tank p.packet) (λ t. tank_interested t i)
            else ok false)
    type_interested_lem i p e h = ground arith

    shown_tank :
        (i : Interest F) (b : Bool) (r : Result (TankPacket F))
        → (if b then and_then r (λ t. tank_interested t i) else ok false) ≡ ok true
        → (t : TankPacket F) × (r ≡ ok t) × (tank_interest t.type ≡ i.interest)
    shown_tank i true (ok t) e = (t, refl, sym (tank_interested_type t i e))
    shown_tank i true (err x) e = absurd (cc e)
    shown_tank i false r e = absurd (cc e)

    direction_lem :
        (i : Interest F) (d : ℕ) (r : Result Bool)
        → (if direction_fits i d then r else ok false) ≡ ok true
        → ((i.direction ≡ unspecified) ⊎ (i.direction ≡ d)) × (r ≡ ok true)
    direction_lem i d r e = ground arith

    -- An extension with an interest in one type of tank packets is shown packets of that type only,
    -- and of its direction where it names one.
    pub interested_type :
        (h : ExtensionHandler F) (p : PreparedPacket F)
        → is_tank_interest h.interest.interest ≡ true
        → interested h p ≡ ok true
        → ((t : TankPacket F) × (get_tank p.packet ≡ ok t)
            × (tank_interest t.type ≡ h.interest.interest))
          × ((h.interest.direction ≡ unspecified) ⊎ (h.interest.direction ≡ p.direction))
    unfolding interested
    interested_type h p tanks e =
        let (direction, shown) =
          direction_lem h.interest p.direction (type_interested h.interest p) e in
        (
          shown_tank h.interest (net_code p.packet.type == 4) (get_tank p.packet) (
              sym (
                type_interested_lem h.interest p tanks
                  (is_tank_interest-ge h.interest.interest tanks))
              ∙ shown),
          direction,
        )
