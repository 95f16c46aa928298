-- ===== src/Inventory/RoundTrip.antt =====
-- The inventory message: what `serialize` writes is the part of the message behind the version byte
-- and the slot count, which `deserialize` expects in front.
use gtools.Prelude.{
  ℕ, ◌<◌, ◌^◌, ◌++◌, [], ◌∷◌, All, length, append_assoc, append-nil, ◌≡◌, sym, ap, subst, ◌∙◌, none,
}
use gtools.Python.Exec.{ok}
use gtools.Python.Struct.{Bytes, little, unsigned}
use gtools.Python.Struct.Laws.{Packs, unsigned-Packs}
use gtools.Python.Dict
use gtools.Python.Dict.{Dict, nat_eq, IsDict, IsDict-append, insert_new}
use gtools.Buffer.Raw.{make}
use gtools.Buffer.RoundTrip.{reading, read_fmt-reading}
use gtools.Buffer.Strings.{write_fmt-make}
use gtools.Inventory.Items.{Item, Inventory}
use gtools.Inventory.Wire.{read_item, read_items, write_item, write_items, serialize, deserialize}

-- An entry stands under its item's id, and the fields fit their formats.
pub record IsWritable (entry : ℕ × Item) : Type 0 where
  pub keyed : entry.1.id ≡ entry.0
  pub id : entry.1.id < 256 ^ 2
  pub amount : entry.1.amount < 256 ^ 1
  pub flags : entry.1.flags < 256 ^ 1

byte : (v : ℕ) → v < 256 ^ 1 → Packs (unsigned 1) little v
byte v h = unsigned-Packs 1 little v h

short : (v : ℕ) → v < 256 ^ 2 → Packs (unsigned 2) little v
short v h = unsigned-Packs 2 little v h

module _ (k : ℕ) (x : Item) (h : IsWritable (k, x)) where
  abbrev item_bytes : Bytes
  item_bytes =
      (short x.id h.id).bytes ++ ((byte x.amount h.amount).bytes ++ (byte x.flags h.flags).bytes)

  write_item-make :
      (done : Bytes) → write_item x (make done little) ≡ (ok tt, make (done ++ item_bytes) little)
  unfolding write_item
  write_item-make done = rw (
    write_fmt-make (short x.id h.id) done,
    write_fmt-make (byte x.amount h.amount) (done ++ (short x.id h.id).bytes),
    write_fmt-make (byte x.flags h.flags)
        (done ++ (short x.id h.id).bytes ++ (byte x.amount h.amount).bytes),
    append_assoc (done ++ (short x.id h.id).bytes) (byte x.amount h.amount).bytes
        (byte x.flags h.flags).bytes,
    append_assoc done (short x.id h.id).bytes
        ((byte x.amount h.amount).bytes ++ (byte x.flags h.flags).bytes),
  )

  read_item-reading :
      (w : ℕ) (done rest : Bytes)
      → read_item (reading little w done (item_bytes ++ rest))
        ≡ (ok x, reading little w (done ++ item_bytes) rest)
  unfolding read_item
  read_item-reading w done rest = rw (
    append_assoc (short x.id h.id).bytes
        ((byte x.amount h.amount).bytes ++ (byte x.flags h.flags).bytes) rest,
    append_assoc (byte x.amount h.amount).bytes (byte x.flags h.flags).bytes rest,
    read_fmt-reading (short x.id h.id) w done
        ((byte x.amount h.amount).bytes ++ ((byte x.flags h.flags).bytes ++ rest)),
    read_fmt-reading (byte x.amount h.amount) w (done ++ (short x.id h.id).bytes)
        ((byte x.flags h.flags).bytes ++ rest),
    read_fmt-reading (byte x.flags h.flags) w
        (done ++ (short x.id h.id).bytes ++ (byte x.amount h.amount).bytes) rest,
    append_assoc (done ++ (short x.id h.id).bytes) (byte x.amount h.amount).bytes
        (byte x.flags h.flags).bytes,
    append_assoc done (short x.id h.id).bytes
        ((byte x.amount h.amount).bytes ++ (byte x.flags h.flags).bytes),
  )

unfoldable items_bytes : (d : Dict ℕ Item) → All IsWritable d → Bytes
items_bytes [] h = []
items_bytes ((k, x) ∷ d) h = item_bytes k x h.0 ++ items_bytes d h.1

write_items-make :
    (d : Dict ℕ Item) (h : All IsWritable d) (done : Bytes)
    → write_items d (make done little) ≡ (ok tt, make (done ++ items_bytes d h) little)
unfolding write_items items_bytes
write_items-make [] h done = rw append-nil
write_items-make ((k, x) ∷ d) h done = rw (
  write_item-make k x h.0 done,
  write_items-make d h.1 (done ++ item_bytes k x h.0),
  append_assoc done (item_bytes k x h.0) (items_bytes d h.1),
)

insert_keyed :
    (k : ℕ) (x : Item) (d : Dict ℕ Item)
    → IsWritable (k, x)
    → Dict.lookup k d ≡ none
    → Dict.insert x.id x d ≡ d ++ (k, x) ∷ []
insert_keyed k x d h n = ap (λ i. Dict.insert i x d) h.keyed ∙ insert_new k x d n

read_items-reading :
    (d acc : Dict ℕ Item) (h : All IsWritable d)
    → IsDict (acc ++ d)
    → (w : ℕ) (done : Bytes)
    → read_items (length d) acc (reading little w done (items_bytes d h))
      ≡ (ok (acc ++ d), reading little w (done ++ items_bytes d h) [])
unfolding read_items items_bytes
read_items-reading [] acc h u w done = rw (append-nil acc, append-nil done, append-nil done)
read_items-reading ((k, x) ∷ d) acc h u w done = rw (
  read_item-reading k x h.0 w done (items_bytes d h.1),
  insert_keyed k x acc h.0 (IsDict-append acc k x d u),
  read_items-reading d (acc ++ (k, x) ∷ []) h.1
      (subst IsDict (sym (append_assoc acc ((k, x) ∷ []) d)) u) w (done ++ item_bytes k x h.0),
  append_assoc acc ((k, x) ∷ []) d,
  append_assoc done (item_bytes k x h.0) (items_bytes d h.1),
)

-- Behind any version byte and the packed slot count, what is written for an inventory reads as the
-- inventory, where it has fewer than 65536 items, each under its own id and with fields that fit.
pub deserialize-serialize_behind_slots :
    (s : Inventory) (version : ℕ) (m : Packs (unsigned 4) little s.max_slot)
    → length s.items_map < 256 ^ 2
    → IsDict s.items_map
    → All IsWritable s.items_map
    → (b : Bytes) × (serialize s ≡ ok b) × (deserialize (version ∷ m.bytes ++ b) ≡ ok s)
unfolding serialize deserialize
deserialize-serialize_behind_slots s version m few u h =
    let count = short (length s.items_map) few in
    let items = items_bytes s.items_map h in
    let all = version ∷ m.bytes ++ (count.bytes ++ items) in
    (
      count.bytes ++ items,
      rw (write_fmt-make count [], write_items-make s.items_map h count.bytes),
      rw (
        deserialize,
        read_fmt-reading m (length all) (version ∷ []) (count.bytes ++ items),
        read_fmt-reading count (length all) (version ∷ m.bytes) items,
        read_items-reading s.items_map [] h u (length all) (version ∷ m.bytes ++ count.bytes),
      ),
    )
