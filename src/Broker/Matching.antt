-- ===== src/Broker/Matching.antt =====
-- binop_eval.py: the clauses of an interest on a table, a tank packet or a variant. Whatever a clause
-- raises makes the interest not match.
use gtools.Prelude.{
  ℕ, zero, suc, ◌+◌, ◌/◌, ◌%◌, List, [], ◌∷◌, ◌++◌, Bool, true, false, ◌==◌, if◌then◌else◌, Option,
  none, some, ℤ, pos, negsuc,
}
use gtools.Python.Exec.{Result, ok, err, key_error, type_error, map_ok, and_then}
use gtools.Python.Struct.{Bytes}
use gtools.Python.Lists.{get_item}
use gtools.StrKv.Text.{Row}
use gtools.StrKv.Table.{StrKv, Key, index, name}
use gtools.StrKv.Methods.{get_row, get_cell}
use gtools.StrKv.Proxies.{locate, relative_get}
use gtools.Packet.Types.{tank_code}
use gtools.Packet.Tank.{TankPacket}
use gtools.Variant.Value.{Value, vfloat, vstr, vvec2, vvec3, vuint, vint}
use gtools.Variant.View.{at}
use gtools.Broker.Operands.{Operand, int, real, bytes, cells, tuple, Library, evaluate}

-- A `Clause` of gtools/proto/strkv.proto: methods by number, the oneof `m`, and the optional column.
pub record Find : Type 0 where
  pub row_method : ℕ
  pub m : Option Key
  pub col : Option (ℕ × ℤ)

-- What the lvalue of a clause unpacks to.
pub data Lvalue : Type 0 where
  query : List Find → Lvalue
  field : ℕ → Lvalue
  variant : ℕ → Lvalue

-- A `BinOp`, with an rvalue that may be missing.
pub record Clause (F : Type 0) : Type 0 where
  pub lvalue : Lvalue
  pub op : ℕ
  pub rvalue : Option (Operand F)

-- The digits of a number, of which n bounds the count.
unfoldable pub digits : ℕ → ℕ → Bytes
digits zero v = []
digits (suc n) v =
    let front = digits n (v / 10) in
    if v / 10 == 0 then (48 + v % 10) ∷ [] else front ++ (48 + v % 10) ∷ []

-- `_to_bytes` of a key
unfoldable pub key_text : Key → Bytes
unfolding digits
key_text (name b) = b
key_text (index (pos v)) = digits (suc v) v
key_text (index (negsuc v)) = 45 ∷ digits (suc (suc v)) (suc v)

-- `getattr` of a oneof that is not set gets `None` for a name.
abbrev pub present {ℓ} : {A : Type ℓ} → Option A → Result A
present none = err type_error
present (some a) = ok a

-- `list(row_view)`
abbrev row_of : StrKv → Result ℤ → Result Row
row_of s r = and_then r (λ i. get_item s.rows i)

-- _GET_ROW
unfoldable pub find_row : ℕ → StrKv → Key → Result Row
find_row method s k =
    if method == 1
    then row_of s (get_row k s)
    else if method == 2
    then and_then (locate (key_text k) s).0 (λ p. get_item s.rows (pos p.0))
    else if method == 3
    then row_of s (get_row k s)
    else err key_error

abbrev find_relative : StrKv → Key → ℤ → Result Bytes
find_relative s k col = (relative_get (key_text k) col s).0

-- _GET_COL: KEY_ANY with ABSOLUTE is `find`, whose column counts from the cell that it finds too.
unfoldable pub find_col : ℕ → ℕ → StrKv → Key → ℤ → Result Bytes
find_col row_method col_method s k col =
    if col_method == 1
    then (if row_method == 1
        then get_cell k col s
        else if row_method == 2
        then find_relative s k col
        else if row_method == 3
        then get_cell k col s
        else err key_error)
    else if col_method == 2
    then (if row_method == 1
        then find_relative s k col
        else if row_method == 2
        then find_relative s k col
        else if row_method == 3
        then find_relative s k col
        else err key_error)
    else err key_error

-- A loop that goes on while its tests hold, and returns `False` at the first that does not.
unfoldable pub all_ok {ℓ} : {A : Type ℓ} → (A → Result Bool) → List A → Result Bool
all_ok test [] = ok true
all_ok test (x ∷ xs) = and_then (test x) (λ b. if b then all_ok test xs else ok false)

-- `except Exception: return False`
abbrev pub caught : Result Bool → Bool
caught (ok b) = b
caught (err e) = false

module _ {F : Type 0} ⦃lib : Library F⦄ where
  abbrev pub find_operand : StrKv → Find → Result (Operand F)
  find_operand s f = and_then (present f.m) (λ k. elim f.col [
    | none ↦ map_ok cells (find_row f.row_method s k)
    | some (method, col) ↦ map_ok bytes (find_col f.row_method method s k col)
  ])

  -- `_OP_EVALUATE[clause.op](lvalue, rvalue)`
  abbrev pub compare_with : Clause F → Result (Operand F) → Result Bool
  compare_with c l = and_then l (λ a. and_then (present c.rvalue) (λ b. evaluate c.op a b))

  unfoldable pub strkv_clause : StrKv → Clause F → Result Bool
  unfolding all_ok
  strkv_clause s c = elim c.lvalue [
    | query finds ↦ all_ok (λ f. compare_with c (find_operand s f)) finds
    | field v ↦ err type_error
    | variant v ↦ err type_error
  ]

  -- _TANK_FIELD_ACCESSOR, by the numbers of gtools/proto/tank.proto
  unfoldable pub tank_field : ℕ → TankPacket F → Result (Operand F)
  tank_field v t =
      if v == 1
      then ok (int (pos (tank_code t.type)))
      else if v == 2
      then ok (int (pos t.object_type))
      else if v == 3
      then ok (int (pos t.jump_count))
      else if v == 4
      then ok (int (pos t.animation_type))
      else if v == 5
      then ok (int t.net_id)
      else if v == 6
      then ok (int t.target_net_id)
      else if v == 7
      then ok (int (pos t.flags))
      else if v == 8
      then ok (real t.float_var)
      else if v == 9
      then ok (int (pos t.value))
      else if v == 10
      then ok (real t.vector_x)
      else if v == 11
      then ok (real t.vector_y)
      else if v == 12
      then ok (real t.vector_x2)
      else if v == 13
      then ok (real t.vector_y2)
      else if v == 14
      then ok (real t.particle_rotation)
      else if v == 15
      then ok (int t.int_x)
      else if v == 16
      then ok (int t.int_y)
      else if v == 17
      then ok (int (pos t.extended_len))
      else err key_error

  unfoldable pub tank_clause : TankPacket F → Clause F → Result Bool
  tank_clause t c = elim c.lvalue [
    | query finds ↦ err type_error
    | field v ↦ compare_with c (tank_field v t)
    | variant v ↦ err type_error
  ]

  abbrev pub payload : Value F → Operand F
  payload (vfloat x) = real x
  payload (vstr b) = bytes b
  payload (vvec2 x y) = tuple (x ∷ y ∷ [])
  payload (vvec3 x y z) = tuple (x ∷ y ∷ z ∷ [])
  payload (vuint v) = int (pos v)
  payload (vint v) = int v

  unfoldable pub variant_clause : List (Value F) → Clause F → Result Bool
  variant_clause vs c = elim c.lvalue [
    | query finds ↦ err type_error
    | field v ↦ err type_error
    | variant v ↦ compare_with c (map_ok payload (at vs (pos v)))
  ]

  unfoldable pub eval_strkv : StrKv → List (Clause F) → Bool
  unfolding all_ok
  eval_strkv s clauses = caught (all_ok (strkv_clause s) clauses)

  unfoldable pub eval_tank : TankPacket F → List (Clause F) → Bool
  unfolding all_ok
  eval_tank t clauses = caught (all_ok (tank_clause t) clauses)

  unfoldable pub eval_variant : List (Value F) → List (Clause F) → Bool
  unfolding all_ok
  eval_variant vs clauses = caught (all_ok (variant_clause vs) clauses)
