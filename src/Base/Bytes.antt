-- ===== src/Base/Bytes.antt =====
-- Arrays of bytes: `memcpy` out of an array and into one, each a fault outside it.
use Prim.Native.Nat.{ℕ, zero, suc, ◌+◌, ◌-◌, ◌≤◌, min}
use mathlib.Core.Path.{◌≡◌, refl, ap, ◌∙◌}
use mathlib.Core.List.{List, [], ◌∷◌, ◌++◌}
use mathlib.Core.Option.{Option, none, some}
use native.Mathlib.Omega.{arith}
use g_max_linked.Base.Tests.{leb, if◌then◌else◌}
use g_max_linked.Base.Lists.{
  length, take, drop, length-take, length-drop, drop-drop, take-add, take-take, drop-take,
}

-- The `n` bytes from `off` on.
abbrev pub slice : List ℕ → ℕ → ℕ → List ℕ
slice b off n = take n (drop off b)

-- `b` with `xs` written over it from its start, and from `off` on.
unfoldable pub overlay : List ℕ → List ℕ → List ℕ
overlay [] xs = []
overlay (y ∷ b) [] = y ∷ b
overlay (y ∷ b) (x ∷ xs) = x ∷ overlay b xs

unfoldable pub splice : List ℕ → ℕ → List ℕ → List ℕ
unfolding overlay
splice b zero xs = overlay b xs
splice [] (suc off) xs = []
splice (y ∷ b) (suc off) xs = y ∷ splice b off xs

abbrev pub copy_out : List ℕ → ℕ → ℕ → Option (List ℕ)
copy_out b off n = if leb (off + n) (length b) then some (slice b off n) else none

abbrev pub copy_in : List ℕ → ℕ → List ℕ → Option (List ℕ)
copy_in b off xs = if leb (off + length xs) (length b) then some (splice b off xs) else none

pub length-overlay : (b xs : List ℕ) → length (overlay b xs) ≡ length b
unfolding overlay
length-overlay [] xs = refl
length-overlay (y ∷ b) [] = refl
length-overlay (y ∷ b) (x ∷ xs) = ap suc (length-overlay b xs)

pub length-splice : (b : List ℕ) (off : ℕ) (xs : List ℕ) → length (splice b off xs) ≡ length b
unfolding splice
length-splice b zero xs = length-overlay b xs
length-splice [] (suc off) xs = refl
length-splice (y ∷ b) (suc off) xs = ap suc (length-splice b off xs)

pub length-slice : (b : List ℕ) (off n : ℕ) → off + n ≤ length b → length (slice b off n) ≡ n
length-slice b off n h = omega (arith, length-take n (drop off b), length-drop off b)

take-overlay : (b xs : List ℕ) → length xs ≤ length b → take (length xs) (overlay b xs) ≡ xs
unfolding overlay
take-overlay [] [] h = refl
take-overlay (y ∷ b) [] h = refl
take-overlay [] (x ∷ xs) h = absurd (omega arith)
take-overlay (y ∷ b) (x ∷ xs) h = ap (◌∷◌ x) (take-overlay b xs (omega arith))

drop-overlay : (b xs : List ℕ) (n : ℕ) → length xs ≤ n → drop n (overlay b xs) ≡ drop n b
unfolding overlay
drop-overlay [] xs n h = refl
drop-overlay (y ∷ b) [] n h = refl
drop-overlay (y ∷ b) (x ∷ xs) zero h = absurd (omega arith)
drop-overlay (y ∷ b) (x ∷ xs) (suc n) h = drop-overlay b xs n (omega arith)

take-splice :
    (b : List ℕ) (off : ℕ) (xs : List ℕ) (n : ℕ) → n ≤ off → take n (splice b off xs) ≡ take n b
unfolding splice
take-splice b off xs zero h = refl
take-splice b zero xs (suc n) h = absurd (omega arith)
take-splice [] (suc off) xs (suc n) h = refl
take-splice (y ∷ b) (suc off) xs (suc n) h = ap (◌∷◌ y) (take-splice b off xs n (omega arith))

-- What is written is what is read back, and nothing else changes.
pub slice-splice_self :
    (b : List ℕ) (off : ℕ) (xs : List ℕ)
    → off + length xs ≤ length b
    → slice (splice b off xs) off (length xs) ≡ xs
unfolding splice
slice-splice_self b zero xs h = take-overlay b xs (omega arith)
slice-splice_self [] (suc off) xs h = absurd (omega arith)
slice-splice_self (y ∷ b) (suc off) xs h = slice-splice_self b off xs (omega arith)

pub slice-splice_before :
    (b : List ℕ) (at : ℕ) (xs : List ℕ) (off n : ℕ)
    → off + n ≤ at
    → slice (splice b at xs) off n ≡ slice b off n
unfolding splice
slice-splice_before b at xs zero n h = take-splice b at xs n (omega arith)
slice-splice_before b zero xs (suc off) n h = absurd (omega arith)
slice-splice_before [] (suc at) xs (suc off) n h = refl
slice-splice_before (y ∷ b) (suc at) xs (suc off) n h =
    slice-splice_before b at xs off n (omega arith)

pub slice-splice_after :
    (b : List ℕ) (at : ℕ) (xs : List ℕ) (off n : ℕ)
    → at + length xs ≤ off
    → slice (splice b at xs) off n ≡ slice b off n
unfolding splice
slice-splice_after b zero xs off n h = ap (take n) (drop-overlay b xs off (omega arith))
slice-splice_after [] (suc at) xs off n h = refl
slice-splice_after (y ∷ b) (suc at) xs zero n h = absurd (omega arith)
slice-splice_after (y ∷ b) (suc at) xs (suc off) n h =
    slice-splice_after b at xs off n (omega arith)

-- Neighbouring parts join.
pub slice-append :
    (b : List ℕ) (off m n : ℕ) → slice b off m ++ slice b (off + m) n ≡ slice b off (m + n)
slice-append b off m n = rw (← drop-drop m off b) (take-add m n (drop off b))

-- Bytes written just behind a part extend it.
pub slice-splice_end :
    (b : List ℕ) (at off k n : ℕ) (xs : List ℕ)
    → at ≡ off + k
    → at + length xs ≤ length b
    → n ≡ k + length xs
    → slice (splice b at xs) off n ≡ slice b off k ++ xs
slice-splice_end b at off k n xs p h e =
    rw (e, ← slice-append, slice-splice_before b at xs off k (omega arith), ← p)
      (ap (◌++◌ (slice b off k)) (slice-splice_self b at xs h))

-- The front of a part, and what is left of it.
pub take-slice : (b : List ℕ) (off m n : ℕ) → m ≤ n → take m (slice b off n) ≡ slice b off m
take-slice b off m n h =
    let e : min m n ≡ m = omega arith in take-take m n (drop off b) ∙ ap (λ k. slice b off k) e

pub drop-slice : (b : List ℕ) (off m n : ℕ) → drop m (slice b off n) ≡ slice b (off + m) (n - m)
drop-slice b off m n = drop-take m n (drop off b) ∙ ap (take (n - m)) (drop-drop m off b)

take-overlay_inside :
    (b xs : List ℕ) (n : ℕ) → length xs ≤ n → take n (overlay b xs) ≡ overlay (take n b) xs
unfolding overlay
take-overlay_inside [] xs zero h = refl
take-overlay_inside [] xs (suc n) h = refl
take-overlay_inside (y ∷ b) [] zero h = refl
take-overlay_inside (y ∷ b) [] (suc n) h = refl
take-overlay_inside (y ∷ b) (x ∷ xs) zero h = absurd (omega arith)
take-overlay_inside (y ∷ b) (x ∷ xs) (suc n) h =
    ap (◌∷◌ x) (take-overlay_inside b xs n (omega arith))

-- A front that holds all that is written can be cut before or after.
pub take-splice_inside :
    (b : List ℕ) (at : ℕ) (xs : List ℕ) (n : ℕ)
    → at + length xs ≤ n
    → take n (splice b at xs) ≡ splice (take n b) at xs
unfolding splice
take-splice_inside b zero xs n h = take-overlay_inside b xs n (omega arith)
take-splice_inside b (suc at) xs zero h = absurd (omega arith)
take-splice_inside [] (suc at) xs (suc n) h = refl
take-splice_inside (y ∷ b) (suc at) xs (suc n) h =
    ap (◌∷◌ y) (take-splice_inside b at xs n (omega arith))
