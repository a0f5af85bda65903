-- ===== src/LoopBuffer/Takes.antt =====
-- What a read hands over, and what it leaves in the buffer.
use g_max_linked.Base.{
  ℕ, ◌-◌, ◌<◌, ◌≡◌, refl, ap, ap₂, ◌∙◌, inl, inr, ◌&&◌, Bool-cases, List, [], ◌++◌, arith, ltb, leb,
  ◌==◌, length, take, drop, min, take-nil, drop-nil, lt→ltb, length-append, take-append_eq,
  drop-append_eq,
}
use g_max_linked.LoopBuffer.{LoopBuffer, read, read_wrapped}
use g_max_linked.LoopBuffer.Invariant.{IsValid, IsWrapped, SameShape, contents, length-contents}
use g_max_linked.LoopBuffer.Read.{taken, read_both_enough, read_both_short}
use g_max_linked.LoopBuffer.Took.{Took, Took-linear, Took-right, Took-gap, Took-both}

Took-wrapped :
    (b : LoopBuffer) (n : ℕ) (v : IsValid b) (h : 0 < n) (u : 0 < b.used_size)
    → IsWrapped b
    → Took b n (read_wrapped b n)
Took-wrapped b n v h u w = elim (Bool-cases (leb n right)) [
  | inl fits ↦ elim (Bool-cases (n == right && ltb 0 b.padding)) [
    | inl gap ↦ Took-gap b n v h u w (ground arith) (ground arith)
    | inr keeps ↦ Took-right b n v h u w (ground arith) (λ e. ground arith)
  ]
  | inr over ↦ elim (Bool-cases (leb n b.used_size)) [
    | inl m ↦
        Took-both b n v h u w (ground arith) n (ground arith)
          (read_both_enough b n v h u w (ground arith) (ground arith))
    | inr m ↦
        Took-both b n v h u w (ground arith) b.used_size (ground arith)
          (read_both_short b n v h u w (ground arith) (ground arith))
  ]
]
  where
    right : ℕ
    right = b.actual_size - b.read_pos

-- `read` of some bytes on a valid buffer never fails an assert or leaves the array. It returns the
-- smaller of the wanted and the held number of bytes, hands over that many from the front of the
-- contents, and leaves the rest. The buffer is valid afterwards, and its size and its padding flag
-- do not change.
pub read_lem : (b : LoopBuffer) (n : ℕ) → IsValid b → 0 < n → Took b n (read b n)
unfolding read
read_lem b n v h = elim (Bool-cases (b.used_size == 0)) [
  | inl none_held ↦
      let e : min n b.used_size ≡ 0 = ground arith in
      let e' : contents b ≡ [] = unfold contents in rw none_held in
      (b, rw (lt→ltb 0 n h, none_held, e, e', take-nil), v, (refl, refl), rw (e', drop-nil))
  | inr held ↦ elim (Bool-cases (ltb b.read_pos b.write_pos)) [
    | inl linear ↦
        rw (lt→ltb 0 n h, held, linear) (Took-linear b n v h (ground arith) (ground arith))
    | inr wrapped ↦
        rw (lt→ltb 0 n h, held, wrapped) (Took-wrapped b n v h (ground arith) (ground arith))
  ]
]

-- A read of as many bytes as a front of the contents has.
pub read-front :
    (b : LoopBuffer) (n : ℕ) (xs ys : List ℕ)
    → IsValid b
    → contents b ≡ xs ++ ys
    → length xs ≡ n
    → 0 < n
    → (b' : LoopBuffer) × (read b n ≡ taken n xs b')
      × IsValid b'
      × SameShape b b'
      × (contents b' ≡ ys)
read-front b n xs ys v c l h =
    let (b', e, v', s, c') = read_lem b n v h in
    let counted : min n b.used_size ≡ n =
      omega (arith, length-contents b v, ap length c, length-append xs ys) in
    (
      b',
      e ∙ ap₂ (λ k x. taken k x b') counted (ap (take n) c ∙ take-append_eq n xs ys l),
      v',
      s,
      c' ∙ ap (drop n) c ∙ drop-append_eq n xs ys l,
    )
