-- ===== src/World/Extra/RoundTrip.antt =====
-- Tile extras are read back as they were written.
use gtools.Prelude.{ℕ, ◌≡◌, Bool, true, false, Option, none, some, sym, subst, ap, ◌∙◌}
use gtools.Python.Exec.{ok}
use gtools.Python.Struct.{Bytes, little}
use gtools.Buffer.Raw.{make}
use gtools.World.Extra.Loops.{read_if, IsU8}
use gtools.World.Extra.Carried.{Carries, finished, next, last, past, u8, taken_back}
use gtools.World.Extra.Guilds.{StarshipHullDataFits, starship_hull_data-Carries}
use gtools.World.Extra.Bodies.{class_type, BodyFits}
use gtools.Python.Dict
use gtools.Python.Dict.{nat_eq}
use gtools.World.Extra.Registry.{registry}
use gtools.World.Extra.Registered.{body-IsRegistered}
use gtools.World.Extra.Codec.{
  DatabaseItem, ExtraData, starship, guild_item, TileExtra, has_starship, has_guild_item,
  read_starship, item_of, deserialize_extra, write_data, serialize_into, serialize_extra,
}

-- The hull's data is there exactly where the item and the format have it, and fits.
abbrev pub HullFits : ℕ → Bool → Option ExtraData → Type 0
HullFits version true (some (starship d)) = StarshipHullDataFits version d
HullFits version true (some (guild_item t d)) = ⊥
HullFits version true none = ⊥
HullFits version false x = x ≡ none

pub record ExtraFits (items : ℕ → Option DatabaseItem) (fg bg version : ℕ) (x : TileExtra)
    : Type 0 where
  pub item : DatabaseItem
  pub known : item_of items fg bg ≡ ok item
  pub typed : x.type ≡ class_type x.body
  pub body : BodyFits fg version x.body
  pub hull : HullFits version (has_starship version item) x.extra_data
  pub no_guild_item : has_guild_item x.type item ≡ false

hull-Carries :
    (fg version : ℕ) (c : Bool) (x : Option ExtraData)
    → HullFits version c x
    → Carries (write_data fg version x) (read_if c (read_starship version) none) x
unfolding write_data read_if read_starship
hull-Carries fg version true (some (starship d)) h = last _ (starship_hull_data-Carries version d h)
hull-Carries fg version true (some (guild_item t d)) h = absurd h
hull-Carries fg version true none h = absurd h
hull-Carries fg version false x h = rw h finished

pub extra-Carries :
    (items : ℕ → Option DatabaseItem) (fg bg version : ℕ) (x : TileExtra)
    → ExtraFits items fg bg version x
    → Carries (serialize_into fg version x) (deserialize_extra items fg bg version) x
unfolding serialize_into deserialize_extra read_if
extra-Carries items fg bg version x h =
    let r = body-IsRegistered fg version x.body h.body in
    let hull = hull-Carries fg version (has_starship version h.item) x.extra_data h.hull in
    next _ (u8 (subst IsU8 (sym h.typed) r.small)) (
      rw (ap (λ t. Dict.lookup t (registry fg version)) h.typed ∙ r.found)
        (next _ r.carried (past _ h.known (rw h.no_guild_item (last _ hull)))))

-- An extra of any class is serialized, and reading the bytes gives it back, where its type is the one
-- its class is registered under, its fields are in the range of their formats, its runs of unknown
-- bytes have their exact lengths, a PVE NPC tile has three NPC records, its stored counts are those of
-- its lists, fields that the format lacks have their defaults, the time of a temporary platform is 0
-- and the tempo of a lock is that of its uids; on an item that the database has, with the hull's
-- data exactly where the item and the format call for it, and where no guild data is read.
pub deserialize_extra-serialize_extra :
    (items : ℕ → Option DatabaseItem) (fg bg version : ℕ) (x : TileExtra)
    → ExtraFits items fg bg version x
    → (b : Bytes) × (serialize_extra fg version x ≡ ok b)
      × ((deserialize_extra items fg bg version (make b little)).0 ≡ ok x)
unfolding serialize_extra
deserialize_extra-serialize_extra items fg bg version x h =
    taken_back (extra-Carries items fg bg version x h)
