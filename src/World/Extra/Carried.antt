-- ===== src/World/Extra/Carried.antt =====
-- What the writer and the reader of a record owe each other: one writes the bytes that the other
-- takes back. A rule for each statement that the tile extras are written in.
use gtools.Prelude.{
  ℕ, ◌++◌, ◌≡◌, ap, subst, Bool, true, false, List, [], ◌∷◌, All, length, some, length-append,
  append_assoc, append-nil, arith, ℤ,
}
use gtools.Python.Exec.{Exec, Result, ok, lift, map_ok, pure, ◌>>=◌, ◌>>◌}
use gtools.Python.Struct.{Bytes, little, Format, unsigned, signed}
use gtools.Python.Struct.Laws.{Packs, unsigned-Packs, signed-Packs}
use gtools.Buffer.Raw.{Buffer, make}
use gtools.Buffer.Values.{
  read_u8, read_u16, read_u32, read_u64, read_i32, read_bytes, write_u8, write_u16, write_u32,
  write_u64, write_i32, write_bytes,
}
use gtools.Buffer.RoundTrip.{reading, read_fmt-reading, read_raw-reading}
use gtools.Buffer.Strings.{
  write_fmt-make, write_raw-make, read_pascal_bytes-reading, write_pascal_bytes-make,
}
use gtools.Buffer.Values.{read_fmt, write_fmt}
use gtools.World.Extra.Loops.{
  read_text, write_text, read_flag, write_flag, skip_one, read_many, write_each, read_if, write_if,
  IsU8, IsU16, IsU32, IsU64, IsI32, IsText, IsRun, Kept,
}

pub record Carries {A : Type 0} (w : Exec Buffer Unit) (r : Exec Buffer A) (v : A) : Type 0 where
  pub bytes : Bytes
  pub written : (done : Bytes) → w (make done little) ≡ (ok tt, make (done ++ bytes) little)
  pub taken :
      (c : ℕ) (done rest : Bytes)
      → r (reading little c done (bytes ++ rest)) ≡ (ok v, reading little c (done ++ bytes) rest)

-- So at every record that fits.
abbrev pub AllCarry : {A : Type 0} → (A → Type 0) → (A → Exec Buffer Unit) → Exec Buffer A → Type 0
AllCarry {A} P w r = (x : A) → P x → Carries (w x) r x

pub finished : {A : Type 0} {v : A} → Carries (pure tt) (pure v) v
finished = record {
  bytes = [];
  written = λ done. rw append-nil;
  taken = λ c done rest. rw (append-nil done);
}

module _ {A B : Type 0} {w : Exec Buffer Unit} {r : Exec Buffer A} {v : A} where
  pub next :
      {w' : Exec Buffer Unit} {u : B} (k : A → Exec Buffer B)
      → Carries w r v
      → Carries w' (k v) u
      → Carries (w >> w') (r >>= k) u
  next k p q = record {
    bytes = p.bytes ++ q.bytes;
    written =
        λ done. rw (p.written done, q.written (done ++ p.bytes), append_assoc done p.bytes q.bytes);
    taken = λ c done rest. rw (
      append_assoc p.bytes q.bytes rest,
      p.taken c done (q.bytes ++ rest),
      q.taken c (done ++ p.bytes) rest,
      append_assoc done p.bytes q.bytes,
    );
  }

  pub last : (f : A → B) → Carries w r v → Carries w (r >>= λ x. pure (f x)) (f v)
  last f p = record {
    bytes = p.bytes;
    written = p.written;
    taken = λ c done rest. rw (p.taken c done rest);
  }

-- A pure step that succeeds reads nothing.
pub past :
    {A B : Type 0} {w : Exec Buffer Unit} {m : Result A} {a : A} {v : B} (k : A → Exec Buffer B)
    → m ≡ ok a
    → Carries w (k a) v
    → Carries w (lift m >>= k) v
past k e p = rw e p

pub packed :
    {A : Type 0} (f : Format A) {v : A} → Packs f little v → Carries (write_fmt f v) (read_fmt f) v
packed f p = record { bytes = p.bytes; written = write_fmt-make p; taken = read_fmt-reading p }

pub u8 : {v : ℕ} → IsU8 v → Carries (write_u8 v) read_u8 v
u8 h = packed (unsigned 1) (unsigned-Packs 1 little _ h)

pub u16 : {v : ℕ} → IsU16 v → Carries (write_u16 v) read_u16 v
u16 h = packed (unsigned 2) (unsigned-Packs 2 little _ h)

pub u32 : {v : ℕ} → IsU32 v → Carries (write_u32 v) read_u32 v
u32 h = packed (unsigned 4) (unsigned-Packs 4 little _ h)

pub u64 : {v : ℕ} → IsU64 v → Carries (write_u64 v) read_u64 v
u64 h = packed (unsigned 8) (unsigned-Packs 8 little _ h)

pub i32 : {v : ℤ} → IsI32 v → Carries (write_i32 v) read_i32 v
i32 h = packed (signed 4) (signed-Packs 4 little _ h)

pub text : {b : Bytes} → IsText b → Carries (write_text b) read_text b
text {b} h =
    let p = unsigned-Packs 2 little (length b) h in
    record {
      bytes = p.bytes ++ b;
      written = write_pascal_bytes-make b p;
      taken = λ c done rest.
          rw (append_assoc p.bytes b rest) (read_pascal_bytes-reading b p c done rest);
    }

pub run : (n : ℕ) {b : Bytes} → IsRun n b → Carries (write_bytes b) (read_bytes (some n)) b
unfolding read_bytes
run n {b} h = record {
  bytes = b;
  written = λ done. write_raw-make b done little;
  taken = λ c done rest. read_raw-reading little c n done b rest h;
}

pub flag : {b : Bool} → Carries (write_flag b) read_flag b
unfolding write_flag read_flag
flag {b = true} = last _ (u32 {v = 1} (omega arith))
flag {b = false} = last _ (u32 {v = 0} (omega arith))

pub skipped : {v : ℕ} → IsU8 v → Carries (write_u8 v) skip_one tt
unfolding skip_one
skipped {v} h =
    let p = unsigned-Packs 1 little v h in
    record {
      bytes = p.bytes;
      written = write_fmt-make p;
      taken = λ c done rest.
          ground (arith, append_assoc done p.bytes rest, length-append done p.bytes, p.sized);
    }

pub when :
    {A : Type 0} {w : Exec Buffer Unit} {r : Exec Buffer A} {x : A} (c : Bool) (P : Type 0) (d : A)
    → (P → Carries w r x)
    → Kept c P x d
    → Carries (write_if c w) (read_if c r d) x
unfolding write_if read_if
when true P d f h = f h
when false P d f h = rw h finished

module _ {A : Type 0} {w : A → Exec Buffer Unit} {r : Exec Buffer A} (P : A → Type 0) where
  each_one :
      (f : (x : A) → P x → Carries (w x) r x) (xs : List A)
      → All P xs
      → Carries (write_each w xs) (read_many (length xs) r) xs
  unfolding write_each read_many
  each_one f [] h = finished
  each_one f (x ∷ xs) h = next _ (f x h.0) (last _ (each_one f xs h.1))

  -- The reader may have found the count in another way.
  pub each :
      {n : ℕ} {xs : List A}
      → ((x : A) → P x → Carries (w x) r x)
      → n ≡ length xs
      → All P xs
      → Carries (write_each w xs) (read_many n r) xs
  each {xs} f e h = rw e (each_one f xs h)

-- What is written into an empty buffer is read from the start.
pub taken_back :
    {A : Type 0} {w : Exec Buffer Unit} {r : Exec Buffer A} {v : A}
    → Carries w r v
    → (b : Bytes) × (map_ok (λ _. (w (make [] little)).1.buffer) (w (make [] little)).0 ≡ ok b)
      × ((r (make b little)).0 ≡ ok v)
taken_back {r} {v} p = (
  p.bytes,
  rw (p.written []),
  subst (λ b. (r (make b little)).0 ≡ ok v) (append-nil p.bytes)
      (ap (λ y. y.0) (p.taken (length (p.bytes ++ [])) [] [])),
)
