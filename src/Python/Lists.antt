-- ===== src/Python/Lists.antt =====
-- Python's list subscripts: a negative index counts from the end, and one out of range raises.
use gtools.Prelude.{
  ℕ, suc, ◌-◌, ◌++◌, List, Option, none, some, ltb, if◌then◌else◌, length, get_elem?, set, take,
  drop, ℤ, pos, negsuc,
}
use gtools.Python.Exec.{Result, ok, err, index_error, and_then, map_ok}

-- The place in a list of the given length that an index names.
unfoldable pub position : ℕ → ℤ → Result ℕ
position n (pos i) = if ltb i n then ok i else err index_error
position n (negsuc i) = if ltb i n then ok (n - suc i) else err index_error

module _ {ℓ} {A : Type ℓ} where
  abbrev from_option : Option A → Result A
  from_option none = err index_error
  from_option (some a) = ok a

  -- xs[i]
  unfoldable pub get_item : List A → ℤ → Result A
  unfolding position
  get_item xs i = and_then (position (length xs) i) (λ k. from_option (get_elem? xs k))

  -- xs[i] = v
  unfoldable pub set_item : List A → ℤ → A → Result (List A)
  unfolding position
  set_item xs i v = map_ok (λ k. set xs k v) (position (length xs) i)

  -- del xs[i]
  unfoldable pub del_item : List A → ℤ → Result (List A)
  unfolding position
  del_item xs i = map_ok (λ k. take k xs ++ drop (suc k) xs) (position (length xs) i)
