-- ===== src/Resource/Units.antt =====
-- No unit of a resource is lost, and none is given out twice.

use mathlib.Core.List.Permᴰ
use mathlib.Core.List.{Permᴰ}
use g_max_linked.Base.{
  ℕ, ◌≡◌, ◌≢◌, sym, subst, ◌∙◌, true, some, List, [], ◌∷◌, ◌++◌, arith, append-nil, append_assoc,
}
use g_max_linked.Resource.{Resource, create, allocate, reclaim}

-- The histories of a resource over `units`, with the units that are out. The clients return only what
-- they have.
pub data Use (units : List ℕ) : Resource → List ℕ → Type 0 where
  starts : {r : Resource} → create units ≡ some r → Use units r []
  takes :
      {r r' : Resource} {out : List ℕ} (unit : ℕ)
      → Use units r out
      → unit ≢ 0
      → allocate r ≡ (unit, r')
      → Use units r' (unit ∷ out)
  returns :
      {r r' : Resource} (xs : List ℕ) (unit : ℕ) (ys : List ℕ)
      → Use units r (xs ++ unit ∷ ys)
      → reclaim unit r ≡ (true, r')
      → Use units r' (xs ++ ys)

allocate-takes :
    (r r' : Resource) (unit : ℕ)
    → unit ≢ 0
    → allocate r ≡ (unit, r')
    → (r.free_units ≡ unit ∷ r'.free_units) × (r'.units ≡ r.units)
unfolding allocate
allocate-takes r r' unit h e = ground arith

reclaim-returns :
    (r r' : Resource) (unit : ℕ)
    → reclaim unit r ≡ (true, r')
    → (r'.free_units ≡ r.free_units ++ unit ∷ []) × (r'.units ≡ r.units)
unfolding reclaim
reclaim-returns r r' unit e = ground arith

create-starts :
    (units : List ℕ) (r : Resource)
    → create units ≡ some r
    → (r.free_units ≡ units) × (r.units ≡ units)
unfolding create
create-starts units r e = ground arith

-- One unit moves from the free ones to those that are out, or back.
move_out :
    (unit : ℕ) (rest out units : List ℕ)
    → Permᴰ (unit ∷ rest ++ out) units
    → Permᴰ (rest ++ unit ∷ out) units
move_out unit rest out units p = Permᴰ.trans (Permᴰ.middle unit rest out) p

move_back :
    (unit : ℕ) (free xs ys units : List ℕ)
    → Permᴰ (free ++ (xs ++ unit ∷ ys)) units
    → Permᴰ ((free ++ unit ∷ []) ++ (xs ++ ys)) units
move_back unit free xs ys units p =
    Permᴰ.trans
      (subst (λ l. Permᴰ l (free ++ (xs ++ unit ∷ ys)))
        (sym (append_assoc free (unit ∷ []) (xs ++ ys)))
        (Permᴰ.append_left free (Permᴰ.symm (Permᴰ.middle unit xs ys))))
      p

-- In every history in which the clients return only what they have, the free units and those that
-- are out are together the units of the start, each as often as there: none is lost, none is made
-- up, and none is given out twice.
pub Use-Permᴰ :
    {units : List ℕ} {r : Resource} {out : List ℕ}
    → Use units r out
    → Permᴰ (r.free_units ++ out) units × (r.units ≡ units)
Use-Permᴰ {units} (starts {r = r} e) =
    let (f, u) = create-starts units r e in
    (subst (λ l. Permᴰ l units) (sym (append-nil r.free_units ∙ f)) (Permᴰ.refl units), u)
Use-Permᴰ {units} (takes {r = r} {r' = r'} {out = out} unit s h e) =
    let (p, u) = Use-Permᴰ s in
    let (f, u') = allocate-takes r r' unit h e in
    (move_out unit r'.free_units out units (subst (λ l. Permᴰ (l ++ out) units) f p), u' ∙ u)
Use-Permᴰ {units} (returns {r = r} {r' = r'} xs unit ys s e) =
    let (p, u) = Use-Permᴰ s in
    let (f, u') = reclaim-returns r r' unit e in
    (
      subst (λ l. Permᴰ (l ++ (xs ++ ys)) units) (sym f)
          (move_back unit r.free_units xs ys units p),
      u' ∙ u,
    )
