-- ===== src/AckQueue/Methods.antt =====
-- The methods of `AckQueue`, over items that are not `None`. `same` is the test `is` or `==`.
use gtools.Prelude.{ℕ, List, [], ◌∷◌, ◌++◌, Bool, Option, none, some, if◌then◌else◌, ◌==◌, length}
use gtools.Python.Exec.{Exec, Result, ok, err, runtime_error, empty}

module _ (T : Type 0) where
  pub record AckQueue : Type 0 where
    pub queue : List T
    pub current : Option T

module _ {T : Type 0} where
  abbrev pub init : AckQueue T
  init = record { queue = []; current = none }

  unfoldable pub put : T → AckQueue T → AckQueue T
  put item s = record s { queue = s.queue ++ item ∷ [] }

  -- The round of `get` under the lock: `none` is to wait, and in a call that must not block to raise.
  unfoldable pub try_get : AckQueue T → Option T × AckQueue T
  try_get s = from_current s.current s.queue
    where
      from_current : Option T → List T → Option T × AckQueue T
      from_current (some x) q = (some x, s)
      from_current none [] = (none, s)
      from_current none (x ∷ q) = (some x, record s { current = some x })

  abbrev or_empty : Option T → Result T
  or_empty none = err empty
  or_empty (some x) = ok x

  -- `get(block=False)`
  unfoldable pub get_nowait : Exec (AckQueue T) T
  unfolding try_get
  get_nowait s = let (x, t) = try_get s in (or_empty x, t)

  module _ (same : T → T → Bool) where
    unfoldable pub ack : Exec (AckQueue T) Unit
    ack s = from_current s.current s.queue
      where
        from_current : Option T → List T → Result (Unit {0}) × AckQueue T
        from_current none q = (err runtime_error, s)
        from_current (some x) [] = (err runtime_error, record s { current = none })
        from_current (some x) (y ∷ q) =
            (if same y x then ok tt else err runtime_error, record { queue = q; current = none })

  unfoldable pub qsize : AckQueue T → ℕ
  qsize s = length s.queue

  unfoldable pub is_empty : AckQueue T → Bool
  is_empty s = length s.queue == 0
