-- ===== src/World/Extra/Loops.antt =====
-- The statements that the tile extras of gtools/core/growtopia/world.py are written in, beside the
-- reads and writes of the buffer: length-prefixed text, flags, runs of a counted length, and
-- fields that only some formats have.
use gtools.Prelude.{
  ℕ, zero, suc, ◌+◌, ◌<◌, ◌^◌, ◌/◌, ◌≡◌, Bool, true, false, not, if◌then◌else◌, ◌==◌, List, [], ◌∷◌,
  length, ℤ,
}
use gtools.Python.Exec.{Exec, pure, modify, ◌>>=◌, ◌>>◌}
use gtools.Python.Struct.{Bytes, in_signed_range}
use gtools.Buffer.Raw.{Buffer}
use gtools.Buffer.Values.{read_u32, write_u32, read_pascal_bytes, write_pascal_bytes}

-- `read_pascal_bytes("H")` and `write_pascal_bytes("H", …)`
abbrev pub read_text : Exec Buffer Bytes
read_text = read_pascal_bytes 2

abbrev pub write_text : Bytes → Exec Buffer Unit
write_text = write_pascal_bytes 2

-- `s.read_u32() != 0` and `s.write_u32(1 if … else 0)`
unfoldable pub read_flag : Exec Buffer Bool
read_flag = do n ← read_u32; pure (not (n == 0))

unfoldable pub write_flag : Bool → Exec Buffer Unit
write_flag b = write_u32 (if b then 1 else 0)

-- `s.rpos += 1`
unfoldable pub skip_one : Exec Buffer Unit
skip_one = modify (λ s. record s { rpos = s.rpos + 1 })

module _ {A : Type 0} where
  -- `for _ in range(n): xs.append(r())`
  unfoldable pub read_many : ℕ → Exec Buffer A → Exec Buffer (List A)
  read_many zero r = pure []
  read_many (suc n) r = do x ← r; xs ← read_many n r; pure (x ∷ xs)

  -- `for x in xs: w(x)`
  unfoldable pub write_each : (A → Exec Buffer Unit) → List A → Exec Buffer Unit
  write_each w [] = pure tt
  write_each w (x ∷ xs) = do w x; write_each w xs

  -- `if c: t.x = r()`, where t.x is d before. An `if` over several fields is one for each field.
  unfoldable pub read_if : Bool → Exec Buffer A → A → Exec Buffer A
  read_if true r d = r
  read_if false r d = pure d

-- `if c: w()`
unfoldable pub write_if : Bool → Exec Buffer Unit → Exec Buffer Unit
write_if true w = w
write_if false w = pure tt

-- What a field must satisfy for its format to hold it.
abbrev pub IsU8 : ℕ → Type 0
IsU8 v = v < 256 ^ 1

abbrev pub IsU16 : ℕ → Type 0
IsU16 v = v < 256 ^ 2

abbrev pub IsU32 : ℕ → Type 0
IsU32 v = v < 256 ^ 4

abbrev pub IsU64 : ℕ → Type 0
IsU64 v = v < 256 ^ 8

abbrev pub IsI32 : ℤ → Type 0
IsI32 v = in_signed_range (256 ^ 4 / 2) v ≡ true

abbrev pub IsText : Bytes → Type 0
IsText b = length b < 256 ^ 2

abbrev pub IsRun : ℕ → Bytes → Type 0
IsRun n b = n ≡ length b

-- A field that is written only if c holds has its default value elsewhere.
abbrev pub Kept : {A : Type 0} → Bool → Type 0 → A → A → Type 0
Kept true P x d = P
Kept false P x d = x ≡ d
