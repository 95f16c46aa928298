-- ===== src/Inventory/Wire.antt =====
-- The inventory message: `deserialize`, `serialize`, and those of a single `Item`.
use gtools.Prelude.{ℕ, zero, suc, ◌+◌, [], ◌∷◌, length}
use gtools.Python.Exec.{Exec, Result, pure, modify, ◌>>=◌, ◌>>◌, map_ok}
use gtools.Python.Struct.{Bytes, little, Format, unsigned, unpack_from}
use gtools.Python.Struct.Fields.{◌⊗◌, ◌&◌}
use gtools.Python.Dict
use gtools.Python.Dict.{Dict, nat_eq}
use gtools.Buffer.Raw.{Buffer, make}
use gtools.Buffer.Values.{read_u8, read_u16, read_u32, write_u8, write_u16}
use gtools.Inventory.Items.{Item, Inventory}

-- "<HBB"
abbrev pub item_format : Format (ℕ × (ℕ × ℕ))
item_format = unsigned 2 ⊗ unsigned 1 ⊗ unsigned 1

unfoldable pub serialize_item : Item → Result Bytes
serialize_item x = item_format.pack little (x.id & x.amount & x.flags)

abbrev of_fields : ℕ × (ℕ × ℕ) → Item
of_fields (i, (a, f)) = record { id = i; amount = a; flags = f }

unfoldable pub deserialize_item : Bytes → Result Item
unfolding unpack_from
deserialize_item b = map_ok of_fields (unpack_from item_format little b)

unfoldable pub read_item : Exec Buffer Item
read_item = do
  id ← read_u16
  amount ← read_u8
  flags ← read_u8
  pure (record { id = id; amount = amount; flags = flags })

-- The generator of `deserialize`, which `from_iter` draws n items from, into a dictionary.
unfoldable pub read_items : ℕ → Dict ℕ Item → Exec Buffer (Dict ℕ Item)
unfolding read_item
read_items zero d = pure d
read_items (suc n) d = do x ← read_item; read_items n (Dict.insert x.id x d)

unfoldable pub deserialize : Bytes → Result Inventory
unfolding read_items
deserialize b =
    ((do
      modify (λ s. record s { rpos = s.rpos + 1 })
      max_slot ← read_u32
      count ← read_u16
      d ← read_items count []
      pure (record { max_slot = max_slot; items_map = d }))
      (make b little)).0

unfoldable pub write_item : Item → Exec Buffer Unit
write_item x = do write_u16 x.id; write_u8 x.amount; write_u8 x.flags

unfoldable pub write_items : Dict ℕ Item → Exec Buffer Unit
unfolding write_item
write_items [] = pure tt
write_items ((k, x) ∷ d) = do write_item x; write_items d

unfoldable pub serialize : Inventory → Result Bytes
unfolding write_items
serialize s =
    let (r, t) = (do write_u16 (length s.items_map); write_items s.items_map) (make [] little) in
    map_ok (λ _. t.buffer) r
