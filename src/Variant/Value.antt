-- ===== src/Variant/Value.antt =====
-- The kinds and the tagged values. The field `kind` of a value is fixed by its class.
use gtools.Prelude.{ℕ, ◌==◌, if◌then◌else◌, ℤ}
use gtools.Python.Exec.{Result, ok, err, value_error}
use gtools.Python.Struct.{Bytes}

pub data Kind : Type 0 where
  float string vec2 vec3 unsigned signed : Kind

abbrev pub kind_code : Kind → ℕ
kind_code float = 1
kind_code string = 2
kind_code vec2 = 3
kind_code vec3 = 4
kind_code unsigned = 5
kind_code signed = 9

-- `Kind(code)`
unfoldable pub parse_kind : ℕ → Result Kind
parse_kind c =
    if c == 1
    then ok float
    else if c == 2
    then ok string
    else if c == 3
    then ok vec2
    else if c == 4
    then ok vec3
    else if c == 5
    then ok unsigned
    else if c == 9
    then ok signed
    else err value_error

pub data Value (F : Type 0) : Type 0 where
  vfloat : F → Value F
  vstr : Bytes → Value F
  vvec2 : F → F → Value F
  vvec3 : F → F → F → Value F
  vuint : ℕ → Value F
  vint : ℤ → Value F

abbrev pub kind : {F : Type 0} → Value F → Kind
kind (vfloat _) = float
kind (vstr _) = string
kind (vvec2 _ _) = vec2
kind (vvec3 _ _ _) = vec3
kind (vuint _) = unsigned
kind (vint _) = signed
