-- ===== src/Resource/Tests.antt =====
-- A resource of three units.
use mathlib.Core.List.{Permᴰ}
use g_max_linked.Base.{ℕ, ◌≡◌, ◌≢◌, refl, List, [], ◌∷◌, arith}
use g_max_linked.Resource.{Resource, create, allocate, is_unit, reclaim}
use g_max_linked.Resource.Units.{Use, starts, takes, returns, Use-Permᴰ}

abbrev units : List ℕ
units = 16 ∷ 32 ∷ 48 ∷ []

abbrev sixteen : ℕ
sixteen = 16

abbrev thirty_two : ℕ
thirty_two = 32

abbrev full : Resource
full = record { units = units; free_units = units }

abbrev two_out : Resource
two_out = record { units = units; free_units = 48 ∷ [] }

abbrev one_back : Resource
one_back = record { units = units; free_units = 48 ∷ 16 ∷ [] }

nonzero : (sixteen ≢ 0) × (thirty_two ≢ 0)
nonzero = omega arith

history : Use units one_back (32 ∷ [])
unfolding create allocate reclaim is_unit
history =
    returns (32 ∷ []) 16 []
      (takes {r' = two_out} 32 (takes 16 (starts {r = full} refl) nonzero.0 refl) nonzero.1 refl)
      refl

Use-Permᴰ_example : Permᴰ (48 ∷ 16 ∷ 32 ∷ []) units × (units ≡ units)
Use-Permᴰ_example = Use-Permᴰ history
