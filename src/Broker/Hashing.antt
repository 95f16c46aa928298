-- ===== src/Broker/Hashing.antt =====
-- `hash_interest` of handler.py.
use gtools.Prelude.{ℕ, ◌-◌, [], ◌∷◌, ◌++◌, ltb, ◌==◌, if◌then◌else◌, ℤ, pos, negsuc}
use gtools.Python.Exec.{Result, ok, err, overflow_error, and_then, map_ok}
use gtools.Python.Struct.{Bytes}
use gtools.Broker.Handler.{Interest, Payload, absent, given}

-- xxh3_64 over all bytes that were given to it, and the bytes that protobuf writes for a payload.
pub record Hashing (F : Type 0) : Type 0 where
  pub xxh3_64 : Bytes → ℕ
  pub payload_bytes : Payload F → Bytes

-- `n.to_bytes()` and `n.to_bytes(signed=True)`, which are one byte long
abbrev to_bytes : ℕ → Result Bytes
to_bytes n = if ltb n 256 then ok (n ∷ []) else err overflow_error

abbrev to_bytes_signed : ℤ → Result Bytes
to_bytes_signed (pos n) = if ltb n 128 then ok (n ∷ []) else err overflow_error
to_bytes_signed (negsuc n) = if ltb n 128 then ok ((255 - n) ∷ []) else err overflow_error

-- What is written only where it is not zero.
abbrev nonzero : ℕ → Result Bytes
nonzero n = if n == 0 then ok [] else to_bytes n

abbrev nonzero_signed : ℤ → Result Bytes
nonzero_signed (pos n) = if n == 0 then ok [] else to_bytes_signed (pos n)
nonzero_signed (negsuc n) = to_bytes_signed (negsuc n)

module _ {F : Type 0} (hash : Hashing F) where
  abbrev given_bytes : Payload F → Bytes
  given_bytes absent = []
  given_bytes (given tag cs vs) = hash.payload_bytes (given tag cs vs)

  unfoldable pub hash_interest : Interest F → Result ℕ
  hash_interest i = and_then (to_bytes i.interest) (λ a. and_then (nonzero_signed i.priority) (λ b.
      and_then (to_bytes i.blocking_mode) (λ c. and_then (nonzero i.direction) (λ d.
        map_ok (λ e. hash.xxh3_64 (a ++ b ++ c ++ d ++ e ++ given_bytes i.payload))
          (nonzero i.id)))))
