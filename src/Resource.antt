-- ===== src/Resource.antt =====
-- `CResource` (src/common/CResource.h): a fixed set of units and a queue of the free ones. A unit is
-- its address, and 0 is null.
pub mod Units
mod Tests
use g_max_linked.Base.{
  ℕ, Bool, true, false, not, Option, none, some, List, [], ◌∷◌, ◌++◌, ltb, ◌==◌, if◌then◌else◌,
  ◌>>=◌, ◌>>◌, assert_that, length,
}

-- `_unitGroup` and `_freeDeque`.
pub record Resource : Type 0 where
  pub units : List ℕ
  pub free_units : List ℕ

-- The constructor, over the units that `new` returns.
unfoldable pub create : List ℕ → Option Resource
create units = do
  assert_that (ltb 1 (length units))
  some (record { units = units; free_units = units })

unfoldable pub allocate : Resource → ℕ × Resource
allocate r = elim r.free_units [
  | [] ↦ (0, r)
  | unit ∷ rest ↦ (unit, record r { free_units = rest })
]

unfoldable pub is_unit : ℕ → List ℕ → Bool
is_unit unit [] = false
is_unit unit (u ∷ us) = if unit == u then true else is_unit unit us

-- Whether the unit is one of the group; nothing tells whether it is free already.
unfoldable pub reclaim : ℕ → Resource → Bool × Resource
reclaim unit r =
    if is_unit unit r.units
    then (true, record r { free_units = r.free_units ++ unit ∷ [] })
    else (false, r)
