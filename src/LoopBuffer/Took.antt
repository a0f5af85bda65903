-- ===== src/LoopBuffer/Took.antt =====
-- What a read hands over, for each way in which it may find the bytes.
use g_max_linked.Base.{
  ℕ, ◌+◌, ◌-◌, ◌≤◌, ◌<◌, ◌≡◌, refl, sym, ap, ap₂, ◌∙◌, inl, inr, Bool-cases, Option, List, ◌++◌,
  arith, leb, length, take, drop, min, take-take, take-append_le, take-append_ge, drop-append_le,
  drop-append_ge,
}
use g_max_linked.Base.Bytes.{slice, length-slice, take-slice, drop-slice}
use g_max_linked.LoopBuffer.{LoopBuffer, Taken, read_linear, read_wrapped}
use g_max_linked.LoopBuffer.Invariant.{
  IsValid, IsLinear, IsWrapped, SameShape, contents, contents-linear, contents-wrapped,
}
use g_max_linked.LoopBuffer.Read.{
  took_right, took_gap, took_both, taken, both, read_linear_lem, read_right_lem, read_gap_lem,
}

-- The contract of a read: the front of the contents goes out, and the rest stays.
abbrev pub Took : LoopBuffer → ℕ → Option Taken → Type 0
Took b n r =
    (b' : LoopBuffer) × (r ≡ taken (min n b.used_size) (take n (contents b)) b')
    × IsValid b'
    × SameShape b b'
    × (contents b' ≡ drop n (contents b))

module _ (b : LoopBuffer) (n : ℕ) (v : IsValid b) (some_byte : 0 < n)
    (holds : 0 < b.used_size) where
  pub Took-linear : IsLinear b → Took b n (read_linear b n)
  unfolding took_right
  Took-linear l = (
    took_right b (min n b.used_size),
    read_linear_lem b n v some_byte holds l
        ∙ ap (λ x. taken (min n b.used_size) x (took_right b (min n b.used_size))) front,
    ground arith,
    (refl, refl),
    contents-linear (took_right b (min n b.used_size)) (ground arith) ∙ back,
  )
    where
      front : slice b.buffer b.read_pos (min n b.used_size) ≡ take n (contents b)
      front = rw (contents-linear b l) (sym (take-take n b.used_size (drop b.read_pos b.buffer)))

      back :
          slice b.buffer (b.read_pos + min n b.used_size) (b.used_size - min n b.used_size)
          ≡ drop n (contents b)
      back =
          rw (contents-linear b l, drop-slice)
            (elim (Bool-cases (leb n b.used_size)) [
              | inl h ↦ let e : min n b.used_size ≡ n = ground arith in rw e
              | inr h ↦
                  let e : b.used_size - n ≡ 0 = ground arith in
                  let e' : b.used_size - min n b.used_size ≡ 0 = ground arith in rw (e, e')
            ])

  pub length-right :
      IsWrapped b
      → length (slice b.buffer b.read_pos (b.actual_size - b.read_pos)) ≡ b.actual_size - b.read_pos
  length-right w = length-slice b.buffer b.read_pos (b.actual_size - b.read_pos) (ground arith)

  pub front_right :
      IsWrapped b
      → n ≤ b.actual_size - b.read_pos
      → slice b.buffer b.read_pos n ≡ take n (contents b)
  front_right w h =
      rw
        (
          contents-wrapped b w,
          take-append_le n (slice b.buffer b.read_pos (b.actual_size - b.read_pos))
              (slice b.buffer 0 b.write_pos) (omega (arith, length-right w)),
        )
        (sym (take-slice b.buffer b.read_pos n (b.actual_size - b.read_pos) h))

  pub Took-right :
      IsWrapped b
      → n ≤ b.actual_size - b.read_pos
      → (n ≡ b.actual_size - b.read_pos → b.padding ≡ 0)
      → Took b n (read_wrapped b n)
  unfolding took_right
  Took-right w h p = (
    took_right b n,
    read_right_lem b n v some_byte holds w h p
        ∙ ap₂ (λ k x. taken k x (took_right b n)) (ground arith) (front_right w h),
    ground arith,
    (refl, refl),
    contents-wrapped (took_right b n) (ground arith)
        ∙ rw
            (
              contents-wrapped b w,
              drop-append_le n (slice b.buffer b.read_pos (b.actual_size - b.read_pos))
                  (slice b.buffer 0 b.write_pos) (omega (arith, length-right w)),
              drop-slice b.buffer b.read_pos n (b.actual_size - b.read_pos),
            )
            (ap (λ k. slice b.buffer (b.read_pos + n) k ++ slice b.buffer 0 b.write_pos)
              (omega arith)),
  )

  pub Took-gap :
      IsWrapped b → n ≡ b.actual_size - b.read_pos → 0 < b.padding → Took b n (read_wrapped b n)
  unfolding took_gap
  Took-gap w h p = (
    took_gap b n,
    read_gap_lem b n v some_byte holds w h p
        ∙ ap₂ (λ k x. taken k x (took_gap b n)) (ground arith) (front_right w (omega arith)),
    ground arith,
    (refl, refl),
    contents-linear (took_gap b n) (ground arith)
        ∙ rw
            (
              contents-wrapped b w,
              drop-append_ge n (slice b.buffer b.read_pos (b.actual_size - b.read_pos))
                  (slice b.buffer 0 b.write_pos) (omega (arith, length-right w)),
              length-right w,
            )
            (ap₂ (λ i k. drop i (slice b.buffer 0 k)) {x = 0} (omega arith) (ground arith)),
  )

  -- A read over the end, for the size that the code settles on.
  pub Took-both :
      IsWrapped b
      → b.actual_size - b.read_pos < n
      → (size : ℕ) → size ≡ min n b.used_size
      → read_wrapped b n ≡ both b n v some_byte holds size
      → Took b n (read_wrapped b n)
  unfolding took_both
  Took-both w h size e r = (
    took_both b size,
    r ∙ ap₂ (λ k x. taken k x (took_both b size)) e front,
    ground arith,
    (refl, refl),
    contents-linear (took_both b size) (ground arith) ∙ back,
  )
    where
      right : ℕ
      right = b.actual_size - b.read_pos

      first : List ℕ
      first = slice b.buffer b.read_pos right

      front : first ++ slice b.buffer 0 (size - right) ≡ take n (contents b)
      front =
          rw
            (
              contents-wrapped b w,
              take-append_ge n first (slice b.buffer 0 b.write_pos) (omega (arith, length-right w)),
              length-right w,
              take-take,
            )
            (ap (λ k. first ++ slice b.buffer 0 k) (ground arith))

      back : slice b.buffer (size - right) (b.used_size - size) ≡ drop n (contents b)
      back =
          rw
            (
              contents-wrapped b w,
              drop-append_ge n first (slice b.buffer 0 b.write_pos) (omega (arith, length-right w)),
              length-right w,
              drop-slice,
            )
            (elim (Bool-cases (leb n b.used_size)) [
              | inl m ↦ ap₂ (slice b.buffer) {x = size - right} (ground arith) (ground arith)
              | inr m ↦
                  let e' : b.write_pos - (n - right) ≡ 0 = ground arith in
                  let e'' : b.used_size - size ≡ 0 = ground arith in rw (e', e'')
            ])
