-- ===== src/LoopBuffer/Appends.antt =====
-- What an accepted write does to the bytes that the buffer holds.
use g_max_linked.Base.{
  ℕ, ◌-◌, ◌≤◌, ◌<◌, ◌≡◌, refl, ap, ap₂, ◌∙◌, inl, inr, true, Bool-cases, some, List, ◌++◌,
  append_assoc, arith, if◌then◌else◌, length, take, drop, length-take, length-drop,
  take-append-drop,
}
use g_max_linked.Base.Bytes.{
  slice, splice, length-splice, slice-splice_end, slice-splice_after, slice-splice_self,
}
use g_max_linked.LoopBuffer.{LoopBuffer, write}
use g_max_linked.LoopBuffer.Invariant.{
  IsValid, IsLinear, IsWrapped, SameShape, contents, contents-linear, contents-wrapped,
}
use g_max_linked.LoopBuffer.Write.{
  fits, wrote_right, wrote_padded, wrote_split, wrote, wrote-IsValid, write-eq-wrote,
  IsLinear-of_test, IsWrapped-of_test,
}

module _ (b : LoopBuffer) (bytes : List ℕ) (v : IsValid b) (some_byte : 0 < length bytes)
    (room : length bytes ≤ b.free_size) where
  contents-wrote_right_linear :
      IsLinear b
      → length bytes ≤ b.total_size - b.write_pos
      → contents (wrote_right b bytes) ≡ contents b ++ bytes
  unfolding wrote_right
  contents-wrote_right_linear l h =
      contents-linear (wrote_right b bytes) (ground arith)
      ∙ rw (contents-linear b l) (
          slice-splice_end b.buffer b.write_pos b.read_pos b.used_size _ bytes (ground arith)
            (ground arith) refl)

  contents-wrote_right_wrapped :
      IsWrapped b → b.write_pos < b.read_pos → contents (wrote_right b bytes) ≡ contents b ++ bytes
  unfolding wrote_right
  contents-wrote_right_wrapped w h =
      contents-wrapped (wrote_right b bytes) (ground arith)
      ∙ rw (contents-wrapped b w, append_assoc)
          (ap₂ ◌++◌
            (slice-splice_after b.buffer b.write_pos bytes b.read_pos (b.actual_size - b.read_pos)
              (ground arith))
            (slice-splice_end b.buffer b.write_pos 0 b.write_pos _ bytes (omega arith)
              (ground arith) refl))

  contents-wrote_padded :
      IsLinear b → length bytes ≤ b.read_pos → contents (wrote_padded b bytes) ≡ contents b ++ bytes
  unfolding wrote_padded
  contents-wrote_padded l h =
      contents-wrapped (wrote_padded b bytes) (ground arith)
      ∙ rw (contents-linear b l) (
          ap₂ ◌++◌
            (slice-splice_after b.buffer 0 bytes b.read_pos (b.write_pos - b.read_pos)
                (ground arith)
              ∙ ap (slice b.buffer b.read_pos) (omega arith))
            (slice-splice_self b.buffer 0 bytes (ground arith)))

  contents-wrote_split :
      IsLinear b
      → b.total_size - b.write_pos < length bytes
      → contents (wrote_split b bytes) ≡ contents b ++ bytes
  unfolding wrote_split
  contents-wrote_split l h =
      contents-wrapped (wrote_split b bytes) (ground (arith, b_sizes))
      ∙ rw (contents-linear b l) (
          ap₂ ◌++◌ right_part left_part
          ∙ append_assoc (slice b.buffer b.read_pos b.used_size) first rest
          ∙ ap (◌++◌ (slice b.buffer b.read_pos b.used_size))
              (take-append-drop (b.total_size - b.write_pos) bytes))
    where
      right : ℕ
      right = b.total_size - b.write_pos

      first : List ℕ
      first = take (b.total_size - b.write_pos) bytes

      rest : List ℕ
      rest = drop (b.total_size - b.write_pos) bytes

      b_sizes :
          (length first ≡ b.total_size - b.write_pos)
          × (length rest ≡ length bytes - (b.total_size - b.write_pos))
      b_sizes = (omega (arith, length-take right bytes), length-drop right bytes)

      middle : List ℕ
      middle = splice b.buffer b.write_pos first

      right_part :
          slice (splice middle 0 rest) b.read_pos (b.actual_size - b.read_pos)
          ≡ slice b.buffer b.read_pos b.used_size ++ first
      right_part =
          slice-splice_after middle 0 rest b.read_pos (b.actual_size - b.read_pos)
            (ground (arith, b_sizes))
          ∙ slice-splice_end b.buffer b.write_pos b.read_pos b.used_size _ first (ground arith)
              (ground (arith, b_sizes)) (ground (arith, b_sizes))

      left_part :
          slice (splice middle 0 rest) 0 (length bytes - (b.total_size - b.write_pos)) ≡ rest
      left_part = rw (← b_sizes.1) (
          slice-splice_self middle 0 rest
            (ground (arith, b_sizes, length-splice b.buffer b.write_pos first)))

contents-wrote :
    (b : LoopBuffer) (bytes : List ℕ)
    → IsValid b
    → 0 < length bytes
    → fits b (length bytes) ≡ true
    → contents (wrote b bytes) ≡ contents b ++ bytes
unfolding wrote
contents-wrote b bytes v h f = ground (
  arith,
  contents-wrote_right_linear b bytes v h,
  contents-wrote_right_wrapped b bytes v h,
  contents-wrote_padded b bytes v h,
  contents-wrote_split b bytes v h,
  IsLinear-of_test v,
  IsWrapped-of_test v,
)

wrote-SameShape : (b : LoopBuffer) (bytes : List ℕ) → SameShape b (wrote b bytes)
unfolding wrote
wrote-SameShape b bytes = ground arith

-- `write` of some bytes on a valid buffer never fails an assert or leaves the array. It answers
-- true exactly when the bytes fit. Then the buffer holds what it held and, behind it, all of the
-- bytes; otherwise it holds what it held. It is valid in either case,
-- and its size and its padding flag do not change.
pub write_lem :
    (b : LoopBuffer) (bytes : List ℕ)
    → IsValid b
    → 0 < length bytes
    → (b' : LoopBuffer) × (write b bytes ≡ some (fits b (length bytes), b'))
      × IsValid b'
      × SameShape b b'
      × (contents b' ≡ (if fits b (length bytes) then contents b ++ bytes else contents b))
write_lem b bytes v h = elim (Bool-cases (fits b (length bytes))) [
  | inl f ↦ (
    wrote b bytes,
    write-eq-wrote b bytes v h ∙ rw f,
    wrote-IsValid b bytes v h f,
    wrote-SameShape b bytes,
    rw f (contents-wrote b bytes v h f),
  )
  | inr f ↦ (b, write-eq-wrote b bytes v h ∙ rw f, v, (refl, refl), rw f)
]
