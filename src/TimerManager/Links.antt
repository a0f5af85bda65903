-- ===== src/TimerManager/Links.antt =====
-- Doubly linked lists in a store of timers.
use g_max_linked.Base.{
  ℕ, ◌≡◌, ◌≢◌, refl, sym, ap, ◌∙◌, ◌⊎◌, inl, inr, List, [], ◌∷◌, ◌++◌, ==_refl, ne→not_==,
}
use g_max_linked.TimerManager.{Timer, Store, set_at}

-- The first timer of a list, or what comes behind it; the last one, or what comes before it.
abbrev pub first_or : ℕ → List ℕ → ℕ
first_or n [] = n
first_or n (x ∷ xs) = x

abbrev pub last_or : ℕ → List ℕ → ℕ
last_or p [] = p
last_or p (x ∷ xs) = last_or x xs

-- The timers of the list are linked both ways, between `p` before it and `n` behind it.
abbrev pub Linked : Store → ℕ → List ℕ → ℕ → Type 0
Linked s p [] n = Unit {0}
Linked s p (x ∷ xs) n =
    (x ≢ 0) × ((s x).previous ≡ p) × ((s x).following ≡ first_or n xs) × Linked s x xs n

abbrev pub Fresh : ℕ → List ℕ → Type 0
Fresh x [] = Unit {0}
Fresh x (y ∷ ys) = (y ≢ x) × Fresh x ys

abbrev pub Distinct : List ℕ → Type 0
Distinct [] = Unit {0}
Distinct (x ∷ xs) = Fresh x xs × Distinct xs

pub first_or-append : (n : ℕ) (xs ys : List ℕ) → first_or n (xs ++ ys) ≡ first_or (first_or n ys) xs
first_or-append n [] ys = refl
first_or-append n (x ∷ xs) ys = refl

pub last_or-append : (p : ℕ) (xs ys : List ℕ) → last_or p (xs ++ ys) ≡ last_or (last_or p xs) ys
last_or-append p [] ys = refl
last_or-append p (x ∷ xs) ys = last_or-append x xs ys

pub Linked-split :
    (s : Store) (p : ℕ) (xs ys : List ℕ) (n : ℕ)
    → Linked s p (xs ++ ys) n
    → Linked s p xs (first_or n ys) × Linked s (last_or p xs) ys n
Linked-split s p [] ys n l = (tt, l)
Linked-split s p (x ∷ xs) ys n (ne, b, f, l) =
    let (l₁, l₂) = Linked-split s x xs ys n l in ((ne, b, f ∙ first_or-append n xs ys, l₁), l₂)

pub Linked-join :
    (s : Store) (p : ℕ) (xs ys : List ℕ) (n : ℕ)
    → Linked s p xs (first_or n ys)
    → Linked s (last_or p xs) ys n
    → Linked s p (xs ++ ys) n
Linked-join s p [] ys n l₁ l₂ = l₂
Linked-join s p (x ∷ xs) ys n (ne, b, f, l₁) l₂ =
    (ne, b, f ∙ sym (first_or-append n xs ys), Linked-join s x xs ys n l₁ l₂)

set_at-other : (s : Store) (a x : ℕ) (t : Timer) → x ≢ a → set_at s a t x ≡ s x
set_at-other s a x t h = rw (ne→not_== x a h) refl

set_at-same : (s : Store) (a : ℕ) (t : Timer) → set_at s a t a ≡ t
set_at-same s a t = rw (==_refl a) refl

-- A change of a timer that is not in the list.
pub Linked-frame :
    (s : Store) (a : ℕ) (t : Timer) (p : ℕ) (xs : List ℕ) (n : ℕ)
    → Fresh a xs
    → Linked s p xs n
    → Linked (set_at s a t) p xs n
Linked-frame s a t p [] n f l = tt
Linked-frame s a t p (x ∷ xs) n (d, f) (ne, b, g, l) =
    let same : set_at s a t x ≡ s x = set_at-other s a x t d in
    (
      ne,
      ap (λ y. y.previous) same ∙ b,
      ap (λ y. y.following) same ∙ g,
      Linked-frame s a t x xs n f l,
    )

-- The last timer of the list gets another one behind it.
pub Linked-retarget :
    (s : Store) (p : ℕ) (xs : List ℕ) (a n n' : ℕ)
    → Fresh a xs
    → Linked s p (xs ++ a ∷ []) n
    → Linked (set_at s a (record (s a) { following = n' })) p (xs ++ a ∷ []) n'
Linked-retarget s p xs a n n' f l =
    let (l₁, (ne, b, g, _)) = Linked-split s p xs (a ∷ []) n l in
    let t : Timer = record (s a) { following = n' } in
    Linked-join (set_at s a t) p xs (a ∷ []) n' (Linked-frame s a t p xs a f l₁) (
      ne,
      ap (λ y. y.previous) (set_at-same s a t) ∙ b,
      ap (λ y. y.following) (set_at-same s a t),
      tt,
    )

-- The first timer of the list gets another one before it.
pub Linked-rebase :
    (s : Store) (p p' a : ℕ) (xs : List ℕ) (n : ℕ)
    → Fresh a xs
    → Linked s p (a ∷ xs) n
    → Linked (set_at s a (record (s a) { previous = p' })) p' (a ∷ xs) n
Linked-rebase s p p' a xs n f (ne, b, g, l) =
    let t : Timer = record (s a) { previous = p' } in
    (
      ne,
      ap (λ y. y.previous) (set_at-same s a t),
      ap (λ y. y.following) (set_at-same s a t) ∙ g,
      Linked-frame s a t a xs n f l,
    )

pub Fresh-split : (a : ℕ) (xs ys : List ℕ) → Fresh a (xs ++ ys) → Fresh a xs × Fresh a ys
Fresh-split a [] ys f = (tt, f)
Fresh-split a (x ∷ xs) ys (d, f) = let (g, h) = Fresh-split a xs ys f in ((d, g), h)

pub Fresh-join : (a : ℕ) (xs ys : List ℕ) → Fresh a xs → Fresh a ys → Fresh a (xs ++ ys)
Fresh-join a [] ys f g = g
Fresh-join a (x ∷ xs) ys (d, f) g = (d, Fresh-join a xs ys f g)

-- A timer in the middle of a list of distinct ones.
pub Distinct-middle :
    (xs : List ℕ) (a : ℕ) (ys : List ℕ)
    → Distinct (xs ++ a ∷ ys)
    → Fresh a xs × Fresh a ys × Distinct (xs ++ ys)
Distinct-middle [] a ys (f, d) = (tt, f, d)
Distinct-middle (x ∷ xs) a ys (f, d) =
    let (g, h, e) = Distinct-middle xs a ys d in
    let (f₁, (ne, f₂)) = Fresh-split x xs (a ∷ ys) f in
    (((λ q. ne (sym q)), g), h, (Fresh-join x xs ys f₁ f₂, e))

pub Distinct-snoc : (xs : List ℕ) (a : ℕ) → Distinct xs → Fresh a xs → Distinct (xs ++ a ∷ [])
Distinct-snoc [] a d f = (tt, tt)
Distinct-snoc (x ∷ xs) a (g, d) (ne, f) =
    (Fresh-join x xs (a ∷ []) g ((λ q. ne (sym q)), tt), Distinct-snoc xs a d f)

pub snoc-cases : (xs : List ℕ) → (xs ≡ []) ⊎ ((ys : List ℕ) × (y : ℕ) × (xs ≡ ys ++ y ∷ []))
snoc-cases [] = inl refl
snoc-cases (x ∷ xs) = elim (snoc-cases xs) [
  | inl e ↦ inr ([], x, ap (◌∷◌ x) e)
  | inr (ys, y, e) ↦ inr (x ∷ ys, y, ap (◌∷◌ x) e)
]
