-- ===== src/Variant/Wire.antt =====
-- `serialize`, `deserialize` and `get`.
use gtools.Prelude.{
  ℕ, zero, suc, ◌+◌, ◌%◌, ◌++◌, List, [], ◌∷◌, Option, none, some, if◌then◌else◌, ltb, length, ℤ,
  pos, negsuc, ◌+ℤ◌,
}
use gtools.Python.Exec.{Exec, Result, ok, err, value_error, pure, raise, lift, ◌>>=◌, ◌>>◌, map_ok}
use gtools.Python.Struct.{Bytes, little, Floats}
use gtools.Python.Struct.Words.{le_value}
use gtools.Buffer.Raw.{Buffer, make}
use gtools.Buffer.Values.{
  read_u8, read_u32, read_i32, read_f32, read_pascal_bytes, peek, write_u8, write_u32, write_i32,
  write_f32, write_pascal_bytes,
}
use gtools.Buffer.Seek.{remaining}
use gtools.Variant.Value.{
  Kind, float, string, vec2, vec3, unsigned, signed, kind_code, parse_kind, Value, vfloat, vstr,
  vvec2, vvec3, vuint, vint, kind,
}

-- A negative index has the declared count added, and has then to be below it.
unfoldable pub index_of : ℤ → ℕ → Result ℕ
index_of (pos i) count = if ltb i count then ok i else err value_error
index_of (negsuc i) count = elim (negsuc i +ℤ pos count) [
  | pos k ↦ if ltb k count then ok k else err value_error
  | negsuc _ ↦ err value_error
]

module _ {F : Type 0} ⦃fl : Floats F⦄ where
  unfoldable pub write_payload : Value F → Exec Buffer Unit
  write_payload (vfloat x) = write_f32 x
  write_payload (vstr b) = write_pascal_bytes 4 b
  write_payload (vvec2 x y) = do write_f32 x; write_f32 y
  write_payload (vvec3 x y z) = do write_f32 x; write_f32 y; write_f32 z
  write_payload (vuint v) = write_u32 v
  write_payload (vint v) = write_i32 v

  -- The body of the loop in `serialize`.
  unfoldable pub write_element : ℕ → Value F → Exec Buffer Unit
  unfolding write_payload
  write_element index v = do write_u8 (index % 256); write_u8 (kind_code (kind v)); write_payload v

  unfoldable pub write_elements : ℕ → List (Value F) → Exec Buffer Unit
  write_elements index [] = pure tt
  write_elements index (v ∷ vs) = do write_element index v; write_elements (suc index) vs

  unfoldable pub serialize : List (Value F) → Result Bytes
  serialize values =
      let (r, s) = (do write_u8 (length values); write_elements 0 values) (make [] little) in
      map_ok (λ _. s.buffer) r

  -- Reads if n bytes are left; `none` is the `break` after a truncated payload.
  abbrev pub if_left : ℕ → Exec Buffer (Value F) → Exec Buffer (Option (Value F))
  if_left n read s = if ltb (remaining s) n then (ok none, s) else (do v ← read; pure (some v)) s

  read_string : Exec Buffer (Option (Value F))
  read_string s =
      if ltb (remaining s) 4
      then (ok none, s)
      else (do
        prefix ← peek (some 4)
        if_left (4 + le_value prefix) (do b ← read_pascal_bytes 4; pure (vstr b)))
          s

  unfoldable pub read_payload : Kind → Exec Buffer (Option (Value F))
  unfolding read_string
  read_payload float = if_left 4 (do x ← read_f32; pure (vfloat x))
  read_payload string = read_string
  read_payload vec2 = if_left 8 (do x ← read_f32; y ← read_f32; pure (vvec2 x y))
  read_payload vec3 = if_left 12 (do x ← read_f32; y ← read_f32; z ← read_f32; pure (vvec3 x y z))
  read_payload unsigned = if_left 4 (do v ← read_u32; pure (vuint v))
  read_payload signed = if_left 4 (do v ← read_i32; pure (vint v))

  -- The body that the loops of `deserialize` and `get` share, from the first check on what is left.
  unfoldable pub read_element : Exec Buffer (Option (Value F))
  unfolding parse_kind read_payload
  read_element s =
      if ltb (remaining s) 2
      then (ok none, s)
      else (do read_u8; code ← read_u8; k ← lift (parse_kind code); read_payload k) s

  -- `n` rounds are left, and `out` holds what was read.
  unfoldable pub read_elements : ℕ → List (Value F) → Exec Buffer (List (Value F))
  read_elements zero out = pure out
  read_elements (suc n) out = do
    e ← read_element
    elim e [ none ↦ pure out | some v ↦ read_elements n (out ++ v ∷ []) ]

  unfoldable pub deserialize : Bytes → Result (List (Value F))
  deserialize [] = ok []
  deserialize (b ∷ bs) = ((do count ← read_u8; read_elements count []) (make (b ∷ bs) little)).0

  -- `n` rounds are left; the element to return is the one that `skip` others precede.
  unfoldable pub get_element : ℕ → ℕ → Exec Buffer (Value F)
  get_element zero skip = raise value_error
  get_element (suc n) skip = do
    e ← read_element
    elim e [
      | none ↦ raise value_error
      | some v ↦ elim skip [ zero ↦ pure v | suc k ↦ get_element n k ]
    ]

  unfoldable pub get : Bytes → ℤ → Result (Value F)
  unfolding index_of
  get b idx =
      ((do count ← read_u8; i ← lift (index_of idx count); get_element count i) (make b little)).0
