-- ===== src/Broker/Operands.antt =====
-- _OP_EVALUATE: the operators of a clause on Python values of the types that can reach them. A pair
-- of types for which Python has no such operation raises TypeError, a missing method AttributeError.
use gtools.Prelude.{
  ℕ, ◌-◌, List, [], ◌∷◌, Bool, true, false, not, ◌&&◌, ◌||◌, ◌==◌, equal, ltb, leb, take, drop,
  length, if◌then◌else◌, ℤ, pos, negsuc,
}
use Prim.Native.Nat.{bit_and, bit_or}
use gtools.Python.Exec.{Result, ok, err, key_error, type_error, value_error, attribute_error}
use gtools.Python.Struct.{Bytes}
use gtools.StrKv.Text.{Row}

-- Left: a field, a cell, a row or the payload of a variant. Right: the rvalue of the clause, where
-- `text` is a `str` and `message` a Vec2 or Vec3.
pub data Operand (F : Type 0) : Type 0 where
  int : ℤ → Operand F
  real : F → Operand F
  bytes : Bytes → Operand F
  cells : Row → Operand F
  tuple : List F → Operand F
  text : Bytes → Operand F
  message : List F → Operand F

-- Python's comparisons of two numbers of which one at least is a float, and its regular expressions:
-- `re_match pattern string` raises for a pattern that is not one.
pub record Library (F : Type 0) : Type 0 where
  pub num_eq : Operand F → Operand F → Bool
  pub num_lt : Operand F → Operand F → Bool
  pub num_le : Operand F → Operand F → Bool
  pub num_near : Operand F → Operand F → Bool
  pub re_match : Bytes → Bytes → Result Bool

abbrev pub int_eq : ℤ → ℤ → Bool
int_eq (pos a) (pos b) = a == b
int_eq (negsuc a) (negsuc b) = a == b
int_eq _ _ = false

abbrev pub int_le : ℤ → ℤ → Bool
int_le (pos a) (pos b) = leb a b
int_le (pos a) (negsuc b) = false
int_le (negsuc a) (pos b) = true
int_le (negsuc a) (negsuc b) = leb b a

abbrev pub int_lt : ℤ → ℤ → Bool
int_lt a b = not (int_le b a)

-- `(a & b) == b`, on negative numbers in two's complement
unfoldable pub bit_test : ℤ → ℤ → Bool
bit_test (pos a) (pos b) = bit_and a b == b
bit_test (pos a) (negsuc b) = false
bit_test (negsuc a) (pos b) = bit_and a b == 0
bit_test (negsuc a) (negsuc b) = bit_or a b == b

-- `a < b` and `a <= b` on byte strings
unfoldable pub bytes_le : Bytes → Bytes → Bool
bytes_le [] b = true
bytes_le (x ∷ a) [] = false
bytes_le (x ∷ a) (y ∷ b) = let rest = bytes_le a b in ltb x y || ((x == y) && rest)

unfoldable pub starts_with : Bytes → Bytes → Bool
starts_with a b = equal (take (length b) a) b

unfoldable pub ends_with : Bytes → Bytes → Bool
ends_with a b = leb (length b) (length a) && equal (drop (length a - length b) a) b

-- `b in a`, at any place of a
unfoldable pub contains_bytes : Bytes → Bytes → Bool
unfolding starts_with
contains_bytes [] b = starts_with [] b
contains_bytes (x ∷ a) b = let later = contains_bytes a b in starts_with (x ∷ a) b || later

unfoldable pub contains_cell : Row → Bytes → Bool
contains_cell [] b = false
contains_cell (x ∷ row) b = let later = contains_cell row b in equal x b || later

unfoldable pub contains_byte : Bytes → ℕ → Bool
contains_byte [] b = false
contains_byte (x ∷ a) b = let later = contains_byte a b in (x == b) || later

module _ {F : Type 0} ⦃lib : Library F⦄ where
  unfoldable pub op_eq : Operand F → Operand F → Bool
  op_eq (int a) (int b) = int_eq a b
  op_eq (int a) (real y) = lib.num_eq (int a) (real y)
  op_eq (real x) (int b) = lib.num_eq (real x) (int b)
  op_eq (real x) (real y) = lib.num_eq (real x) (real y)
  op_eq (bytes a) (bytes b) = equal a b
  op_eq _ _ = false

  -- `abs(a - b) < 0.01`
  unfoldable pub op_eq_eps : Operand F → Operand F → Result Bool
  op_eq_eps (int a) (int b) = ok (int_eq a b)
  op_eq_eps (int a) (real y) = ok (lib.num_near (int a) (real y))
  op_eq_eps (real x) (int b) = ok (lib.num_near (real x) (int b))
  op_eq_eps (real x) (real y) = ok (lib.num_near (real x) (real y))
  op_eq_eps _ _ = err type_error

  -- `a < b`
  unfoldable pub op_lt : Operand F → Operand F → Result Bool
  op_lt (int a) (int b) = ok (int_lt a b)
  op_lt (int a) (real y) = ok (lib.num_lt (int a) (real y))
  op_lt (real x) (int b) = ok (lib.num_lt (real x) (int b))
  op_lt (real x) (real y) = ok (lib.num_lt (real x) (real y))
  op_lt (bytes a) (bytes b) = ok (not (bytes_le b a))
  op_lt _ _ = err type_error

  -- `a <= b`
  unfoldable pub op_le : Operand F → Operand F → Result Bool
  op_le (int a) (int b) = ok (int_le a b)
  op_le (int a) (real y) = ok (lib.num_le (int a) (real y))
  op_le (real x) (int b) = ok (lib.num_le (real x) (int b))
  op_le (real x) (real y) = ok (lib.num_le (real x) (real y))
  op_le (bytes a) (bytes b) = ok (bytes_le a b)
  op_le _ _ = err type_error

  unfoldable pub op_bit_test : Operand F → Operand F → Result Bool
  op_bit_test (int a) (int b) = ok (bit_test a b)
  op_bit_test _ _ = err type_error

  unfoldable pub op_like : Operand F → Operand F → Result Bool
  op_like (bytes a) (bytes pattern) = lib.re_match pattern a
  op_like _ _ = err type_error

  unfoldable pub op_starts_with : Operand F → Operand F → Result Bool
  op_starts_with (bytes a) (bytes b) = ok (starts_with a b)
  op_starts_with (bytes a) _ = err type_error
  op_starts_with _ _ = err attribute_error

  unfoldable pub op_ends_with : Operand F → Operand F → Result Bool
  op_ends_with (bytes a) (bytes b) = ok (ends_with a b)
  op_ends_with (bytes a) _ = err type_error
  op_ends_with _ _ = err attribute_error

  unfoldable pub contains_number : List F → Operand F → Bool
  contains_number [] b = false
  contains_number (x ∷ xs) b = let later = contains_number xs b in op_eq (real x) b || later

  -- `b in a`
  unfoldable pub op_contains : Operand F → Operand F → Result Bool
  op_contains (bytes a) (bytes b) = ok (contains_bytes a b)
  op_contains (bytes a) (int (pos b)) =
      if ltb b 256 then ok (contains_byte a b) else err value_error
  op_contains (bytes a) (int (negsuc b)) = err value_error
  op_contains (bytes a) _ = err type_error
  op_contains (cells row) (bytes b) = ok (contains_cell row b)
  op_contains (cells row) _ = ok false
  op_contains (tuple xs) b = ok (contains_number xs b)
  op_contains _ _ = err type_error

  -- The operators by their numbers in gtools/proto/op.proto.
  unfoldable pub evaluate : ℕ → Operand F → Operand F → Result Bool
  evaluate op a b =
      if op == 1
      then ok (op_eq a b)
      else if op == 2
      then op_eq_eps a b
      else if op == 3
      then ok (not (op_eq a b))
      else if op == 4
      then op_lt b a
      else if op == 5
      then op_le b a
      else if op == 6
      then op_lt a b
      else if op == 7
      then op_le a b
      else if op == 8
      then op_bit_test a b
      else if op == 9
      then op_like a b
      else if op == 10
      then op_starts_with a b
      else if op == 11
      then op_ends_with a b
      else if op == 12
      then op_contains a b
      else err key_error
