-- ===== src/Traffic/Groups.antt =====
-- The groups take new nodes in turn.
use Prim.Native.Nat.{◌%◌}
use native.Mathlib.Nat.{suc-mod, mod-eq_of_lt, mod_self}
use g_max_linked.Base.{
  ℕ, zero, suc, ◌+◌, ◌≤◌, ◌<◌, ◌≡◌, refl, sym, ap, ap₂, ◌∙◌, List, [], ◌∷◌, inl, inr, Bool-cases,
  arith, ◌==◌, if◌then◌else◌,
}
use g_max_linked.Traffic.{Traffic, allocate_group}

-- The groups of the next nodes.
unfoldable pub groups : ℕ → Traffic → List ℕ
groups zero t = []
groups (suc n) t = let (group, t') = allocate_group t in group ∷ groups n t'

-- The numbers from `k` on, each modulo `count`.
abbrev pub cycle : ℕ → ℕ → ℕ → List ℕ
cycle count k zero = []
cycle count k (suc n) = k % count ∷ cycle count (suc k) n

abbrev at : Traffic → ℕ → Traffic
at t k = record t { cur_group = k }

groups-step :
    (t : Traffic) (k n : ℕ)
    → 0 < t.group_count
    → groups (suc n) (at t k)
      ≡ (if k == t.group_count then 0 else k)
        ∷ groups n (at t ((if k == t.group_count then 0 else k) + 1))
unfolding groups allocate_group
groups-step t k n h = refl

step_mod :
    (count j r : ℕ)
    → r < count
    → j % count ≡ r
    → suc j % count ≡ (if r + 1 == count then 0 else r + 1)
step_mod count j r h e =
    suc-mod j count ∙ ap (λ x. suc x % count) e ∙ elim (Bool-cases (r + 1 == count)) [
      | inl full ↦
          let whole : suc r ≡ count = ground arith in
          ap (λ x. x % count) whole ∙ mod_self count ∙ rw full refl
      | inr more ↦ mod-eq_of_lt (ground arith) ∙ rw more (omega arith)
    ]

groups-cycle :
    (t : Traffic) (k j n : ℕ)
    → 0 < t.group_count
    → k ≤ t.group_count
    → j % t.group_count ≡ (if k == t.group_count then 0 else k)
    → groups n (at t k) ≡ cycle t.group_count j n
groups-cycle t k j zero h b e = unfold groups in refl
groups-cycle t k j (suc n) h b e =
    groups-step t k n h
    ∙ ap₂ (λ x xs. x ∷ xs) (sym e)
        (groups-cycle t ((if k == t.group_count then 0 else k) + 1) (suc j) n h (ground (arith, e))
          (step_mod t.group_count j (if k == t.group_count then 0 else k) (ground arith) e))

-- The groups take the new nodes in turn: from the current one on, the n-th new node goes to the group
-- with that number, counted modulo the number of groups.
pub groups_lem :
    (t : Traffic) (n : ℕ)
    → 0 < t.group_count
    → t.cur_group ≤ t.group_count
    → groups n t ≡ cycle t.group_count t.cur_group n
groups_lem t n h b =
    groups-cycle t t.cur_group t.cur_group n h b (elim (Bool-cases (t.cur_group == t.group_count)) [
      | inl e ↦
          let whole : t.cur_group ≡ t.group_count = ground arith in
          ap (λ x. x % t.group_count) whole ∙ mod_self t.group_count ∙ rw e refl
      | inr e ↦ mod-eq_of_lt (ground arith) ∙ rw e refl
    ])
