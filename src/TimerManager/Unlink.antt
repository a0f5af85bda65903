-- ===== src/TimerManager/Unlink.antt =====
-- `_delTimer`, which takes a timer out of the chain.
use g_max_linked.Base.{
  ℕ, ◌≡◌, ◌≢◌, refl, sym, subst, ◌∙◌, inl, inr, some, List, [], ◌∷◌, ◌++◌, ==_refl, ne→not_==,
  append_assoc, append-nil,
}
use g_max_linked.Resource.{reclaim}
use g_max_linked.TimerManager.{deleted, Manager, set_at, set_status, unlink, del_timer}
use g_max_linked.TimerManager.Links.{
  Linked, Distinct, first_or-append, last_or-append, Linked-split, Linked-join, Linked-frame,
  Linked-retarget, Linked-rebase, Fresh-join, Distinct-middle, snoc-cases,
}
use g_max_linked.TimerManager.Chain.{IsChain, first_or-snoc, last_or-snoc, IsChain-status}

-- `unlink` in a chain takes the timer out.
Unlinks : Manager → ℕ → List ℕ → Type 0
Unlinks m t xs = (m' : Manager) × (unlink t m ≡ some m') × IsChain m' xs

module _ (m : Manager) (t : ℕ) where
  unlink_only : IsChain m (t ∷ []) → Unlinks m t []
  unfolding unlink Unlinks
  unlink_only c =
      let (nonzero, p, n, _) = c.links in
      (
        record m { last_timer = 0; timer_list = 0 },
        rw (p, n, c.first, c.last, ==_refl t) refl,
        record { first = refl; last = refl; links = tt; distinct = tt },
      )

  unlink_first : (b : ℕ) (bs : List ℕ) → IsChain m (t ∷ b ∷ bs) → Unlinks m t (b ∷ bs)
  unfolding unlink Unlinks
  unlink_first b bs c =
      let (nonzero, p, n, l) = c.links in
      (
        record m { timer_list = b; store = set_at m.store b (record (m.store b) { previous = 0 }) },
        rw (p, n, ne→not_== b 0 l.0, c.first, ==_refl t) refl,
        record {
          first = refl;
          last = c.last;
          links = Linked-rebase m.store t 0 b bs 0 c.distinct.1.0 l;
          distinct = c.distinct.1;
        },
      )

  unlink_last :
      (xs : List ℕ) (a : ℕ) → IsChain m ((xs ++ a ∷ []) ++ t ∷ []) → Unlinks m t (xs ++ a ∷ [])
  unfolding unlink Unlinks
  unlink_last xs a c =
      let (l₁, (nonzero, p, n, _)) = Linked-split m.store 0 (xs ++ a ∷ []) (t ∷ []) 0 c.links in
      let d =
        subst Distinct (append-nil (xs ++ a ∷ []))
          (Distinct-middle (xs ++ a ∷ []) t [] c.distinct).2 in
      let before : (m.store t).previous ≡ a = p ∙ last_or-snoc 0 xs a in
      let a_nonzero : a ≢ 0 = (Linked-split m.store 0 xs (a ∷ []) t l₁).1.0 in
      let at_end : m.last_timer ≡ t = c.last ∙ last_or-append 0 (xs ++ a ∷ []) (t ∷ []) in
      (
        record m {
          last_timer = a;
          store = set_at m.store a (record (m.store a) { following = 0 });
        },
        rw (before, n, ne→not_== a 0 a_nonzero, at_end, ==_refl t) refl,
        record {
          first = c.first ∙ first_or-append 0 (xs ++ a ∷ []) (t ∷ []) ∙ first_or-snoc t 0 xs a;
          last = sym (last_or-snoc 0 xs a);
          links = Linked-retarget m.store 0 xs a t 0 (Distinct-middle xs a [] d).0 l₁;
          distinct = d;
        },
      )

  unlink_middle :
      (xs : List ℕ) (a b : ℕ) (ys : List ℕ)
      → IsChain m ((xs ++ a ∷ []) ++ t ∷ b ∷ ys)
      → Unlinks m t ((xs ++ a ∷ []) ++ b ∷ ys)
  unfolding unlink Unlinks
  unlink_middle xs a b ys c =
      let (l₁, (nonzero, p, n, l₂)) =
        Linked-split m.store 0 (xs ++ a ∷ []) (t ∷ b ∷ ys) 0 c.links in
      let d = (Distinct-middle (xs ++ a ∷ []) t (b ∷ ys) c.distinct).2 in
      let (b_before, b_after, _) = Distinct-middle (xs ++ a ∷ []) b ys d in
      let (a_before, a_after, _) =
        Distinct-middle xs a (b ∷ ys) (subst Distinct (append_assoc xs (a ∷ []) (b ∷ ys)) d) in
      let before : (m.store t).previous ≡ a = p ∙ last_or-snoc 0 xs a in
      let a_nonzero : a ≢ 0 = (Linked-split m.store 0 xs (a ∷ []) t l₁).1.0 in
      let s₁ = set_at m.store a (record (m.store a) { following = b }) in
      let s₂ = set_at s₁ b (record (s₁ b) { previous = a }) in
      let left : Linked s₂ 0 (xs ++ a ∷ []) b =
        Linked-frame s₁ b (record (s₁ b) { previous = a }) 0 (xs ++ a ∷ []) b b_before
          (Linked-retarget m.store 0 xs a t b a_before l₁) in
      let right : Linked s₂ a (b ∷ ys) 0 =
        Linked-rebase s₁ t a b ys 0 b_after
          (Linked-frame m.store a (record (m.store a) { following = b }) t (b ∷ ys) 0 a_after l₂) in
      (
        record m { store = s₂ },
        rw (before, n, ne→not_== a 0 a_nonzero, ne→not_== b 0 l₂.0) refl,
        record {
          first =
              c.first
              ∙ first_or-append 0 (xs ++ a ∷ []) (t ∷ b ∷ ys)
              ∙ first_or-snoc t b xs a
              ∙ sym (first_or-append 0 (xs ++ a ∷ []) (b ∷ ys));
          last =
              c.last
              ∙ last_or-append 0 (xs ++ a ∷ []) (t ∷ b ∷ ys)
              ∙ sym (last_or-append 0 (xs ++ a ∷ []) (b ∷ ys));
          links =
              Linked-join s₂ 0 (xs ++ a ∷ []) (b ∷ ys) 0 left
                (subst (λ x. Linked s₂ x (b ∷ ys) 0) (sym (last_or-snoc 0 xs a)) right);
          distinct = d;
        },
      )

unlink_lem :
    (m : Manager) (xs : List ℕ) (t : ℕ) (ys : List ℕ)
    → IsChain m (xs ++ t ∷ ys)
    → Unlinks m t (xs ++ ys)
unlink_lem m xs t [] c = elim (snoc-cases xs) [
  | inl e ↦
      subst (λ x. Unlinks m t (x ++ [])) (sym e)
        (unlink_only m t (subst (λ x. IsChain m (x ++ t ∷ [])) e c))
  | inr (zs, a, e) ↦
      subst (λ x. Unlinks m t (x ++ [])) (sym e)
        (subst (Unlinks m t) (sym (append-nil (zs ++ a ∷ [])))
          (unlink_last m t zs a (subst (λ x. IsChain m (x ++ t ∷ [])) e c)))
]
unlink_lem m xs t (b ∷ ys) c = elim (snoc-cases xs) [
  | inl e ↦
      subst (λ x. Unlinks m t (x ++ b ∷ ys)) (sym e)
        (unlink_first m t b ys (subst (λ x. IsChain m (x ++ t ∷ b ∷ ys)) e c))
  | inr (zs, a, e) ↦
      subst (λ x. Unlinks m t (x ++ b ∷ ys)) (sym e)
        (unlink_middle m t zs a b ys (subst (λ x. IsChain m (x ++ t ∷ b ∷ ys)) e c))
]

-- `_delTimer` of a timer anywhere in the chain, at its front, at its end, between two others or
-- alone, does not fault, and takes that timer out of the chain and no other.
pub del_timer_lem :
    (m : Manager) (xs : List ℕ) (t : ℕ) (ys : List ℕ)
    → IsChain m (xs ++ t ∷ ys)
    → (m' : Manager) × (del_timer t m ≡ some m') × IsChain m' (xs ++ ys)
unfolding del_timer Unlinks
del_timer_lem m xs t ys c =
    let (m', e, c') = unlink_lem m xs t ys c in
    let (_, (nonzero, _, _, _)) = Linked-split m.store 0 xs (t ∷ ys) 0 c.links in
    let (f, g, _) = Distinct-middle xs t ys c.distinct in
    let k = IsChain-status m' (xs ++ ys) t deleted (Fresh-join t xs ys f g) c' in
    (
      record (set_status m' t deleted) { resource = (reclaim t m'.resource).1 },
      rw (ne→not_== t 0 nonzero, e) refl,
      record { first = k.first; last = k.last; links = k.links; distinct = k.distinct },
    )
