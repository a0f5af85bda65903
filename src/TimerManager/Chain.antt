-- ===== src/TimerManager/Chain.antt =====
-- The chain of the running timers, and `_addTimer`, which puts one at its end.
use g_max_linked.Base.{
  ℕ, ◌≡◌, ◌≢◌, refl, sym, subst, ◌∙◌, inl, inr, some, List, [], ◌∷◌, ◌++◌, ==_refl, ne→not_==,
}
use g_max_linked.TimerManager.{TimerStatus, added, Manager, Store, set_at, set_status, add_timer}
use g_max_linked.TimerManager.Links.{
  first_or, last_or, Linked, Fresh, Distinct, first_or-append, last_or-append, Linked-join,
  Linked-frame, Linked-retarget, Fresh-split, Distinct-middle, Distinct-snoc, snoc-cases,
}

-- The manager's list is `xs`, linked both ways, with no timer twice.
pub record IsChain (m : Manager) (xs : List ℕ) : Type 0 where
  pub first : m.timer_list ≡ first_or 0 xs
  pub last : m.last_timer ≡ last_or 0 xs
  pub links : Linked m.store 0 xs 0
  pub distinct : Distinct xs

pub first_or-snoc :
    (n n' : ℕ) (xs : List ℕ) (a : ℕ) → first_or n (xs ++ a ∷ []) ≡ first_or n' (xs ++ a ∷ [])
first_or-snoc n n' [] a = refl
first_or-snoc n n' (x ∷ xs) a = refl

first_nonzero :
    (s : Store) (p : ℕ) (xs : List ℕ) (a n k : ℕ)
    → Linked s p (xs ++ a ∷ []) n
    → first_or k (xs ++ a ∷ []) ≢ 0
first_nonzero s p [] a n k l = l.0
first_nonzero s p (x ∷ xs) a n k l = l.0

pub last_or-snoc : (p : ℕ) (xs : List ℕ) (a : ℕ) → last_or p (xs ++ a ∷ []) ≡ a
last_or-snoc p xs a = last_or-append p xs (a ∷ [])

-- A manager with another status of a timer outside the chain.
pub IsChain-status :
    (m : Manager) (xs : List ℕ) (t : ℕ) (status : TimerStatus)
    → Fresh t xs
    → IsChain m xs
    → IsChain (set_status m t status) xs
IsChain-status m xs t status f c = record {
  first = c.first;
  last = c.last;
  links = Linked-frame m.store t (record (m.store t) { status = status }) 0 xs 0 f c.links;
  distinct = c.distinct;
}

module _ (m : Manager) (t : ℕ) (nonzero : t ≢ 0) where
  -- The manager with a timer behind its last one.
  abbrev behind : ℕ → Manager
  behind a =
      let before = set_at m.store t (record (m.store t) { previous = a }) in
      let linked = set_at before a (record (before a) { following = t }) in
      set_status (record m { store = linked; last_timer = t }) t added

  add_timer-behind : (a : ℕ) → m.last_timer ≡ a → m.timer_list ≢ 0 → add_timer t m ≡ some (behind a)
  unfolding add_timer
  add_timer-behind a e h = rw (ne→not_== t 0 nonzero, ne→not_== m.timer_list 0 h, e) refl

  IsChain-behind :
      (xs : List ℕ) (a : ℕ)
      → IsChain m (xs ++ a ∷ [])
      → Fresh t (xs ++ a ∷ [])
      → (m.store t).following ≡ 0
      → IsChain (behind a) ((xs ++ a ∷ []) ++ t ∷ [])
  IsChain-behind xs a c f n =
      let s₁ = set_at m.store t (record (m.store t) { previous = a }) in
      let s₂ = set_at s₁ a (record (s₁ a) { following = t }) in
      let l₁ : Linked s₁ 0 (xs ++ a ∷ []) 0 =
        Linked-frame m.store t (record (m.store t) { previous = a }) 0 (xs ++ a ∷ []) 0 f c.links in
      let l₂ : Linked s₂ 0 (xs ++ a ∷ []) t =
        Linked-retarget s₁ 0 xs a 0 t (Distinct-middle xs a [] c.distinct).0 l₁ in
      let l₃ = Linked-frame s₂ t (record (s₂ t) { status = added }) 0 (xs ++ a ∷ []) t f l₂ in
      let apart : t ≢ a = λ q. (Fresh-split t xs (a ∷ []) f).1.0 (sym q) in
      record {
        first = c.first ∙ first_or-snoc 0 t xs a ∙ sym (first_or-append 0 (xs ++ a ∷ []) (t ∷ []));
        last = sym (last_or-append 0 (xs ++ a ∷ []) (t ∷ []));
        links = Linked-join (behind a).store 0 (xs ++ a ∷ []) (t ∷ []) 0 l₃ (
          nonzero,
          rw (==_refl t, ne→not_== t a apart) (sym (last_or-snoc 0 xs a)),
          rw (==_refl t, ne→not_== t a apart) n,
          tt,
        );
        distinct = Distinct-snoc (xs ++ a ∷ []) t c.distinct f;
      }

  alone : Manager
  alone = set_status (record m { last_timer = t; timer_list = t }) t added

  add_timer-alone : m.last_timer ≡ 0 → m.timer_list ≡ 0 → add_timer t m ≡ some alone
  unfolding add_timer alone
  add_timer-alone e h = rw (ne→not_== t 0 nonzero, h, e) refl

  IsChain-alone : (m.store t).previous ≡ 0 → (m.store t).following ≡ 0 → IsChain alone (t ∷ [])
  unfolding alone
  IsChain-alone p n = record {
    first = refl;
    last = refl;
    links = (nonzero, rw (==_refl t) p, rw (==_refl t) n, tt);
    distinct = (tt, tt);
  }

-- A timer that is not in the chain, with null links: `_addTimer` does not fault and puts it at the
-- end of the chain.
pub add_timer_lem :
    (m : Manager) (t : ℕ) (xs : List ℕ)
    → IsChain m xs
    → t ≢ 0
    → Fresh t xs
    → (m.store t).previous ≡ 0
    → (m.store t).following ≡ 0
    → (m' : Manager) × (add_timer t m ≡ some m') × IsChain m' (xs ++ t ∷ [])
add_timer_lem m t xs c nonzero f p n = elim (snoc-cases xs) [
  | inl e ↦
      let c' = subst (IsChain m) e c in
      (
        alone m t nonzero,
        add_timer-alone m t nonzero c'.last c'.first,
        subst (λ x. IsChain (alone m t nonzero) (x ++ t ∷ [])) (sym e)
            (IsChain-alone m t nonzero p n),
      )
  | inr (ys, a, e) ↦
      let c' = subst (IsChain m) e c in
      let held : m.timer_list ≢ 0 =
        λ q. first_nonzero m.store 0 ys a 0 0 c'.links (sym c'.first ∙ q) in
      (
        behind m t nonzero a,
        add_timer-behind m t nonzero a (c'.last ∙ last_or-snoc 0 ys a) held,
        subst (λ x. IsChain (behind m t nonzero a) (x ++ t ∷ [])) (sym e)
            (IsChain-behind m t nonzero ys a c' (subst (Fresh t) e f) n),
      )
]
