-- ===== src/LoopBuffer/Read.antt =====
-- `read` on a valid buffer: its cases, and the buffer after each of them.
use g_max_linked.Base.{ℕ, ◌+◌, ◌-◌, ◌≤◌, ◌<◌, ◌≡◌, Option, some, List, ◌++◌, arith, min}
use g_max_linked.Base.Bytes.{slice}
use g_max_linked.LoopBuffer.{LoopBuffer, Taken, read_linear, read_wrapped}
use g_max_linked.LoopBuffer.Invariant.{IsValid, IsLinear, IsWrapped}

-- The buffer after a read of `n` bytes, without the tests and the wrapping of the code.
unfoldable pub removed : LoopBuffer → ℕ → LoopBuffer
removed b n = record b { used_size = b.used_size - n; free_size = b.free_size + n }

unfoldable pub regained : LoopBuffer → LoopBuffer
regained b = record b {
  actual_size = b.total_size;
  free_size = b.free_size + b.padding;
  padding = 0;
}

unfoldable pub took_right : LoopBuffer → ℕ → LoopBuffer
unfolding removed
took_right b n = removed (record b { read_pos = b.read_pos + n }) n

-- The last byte before the padding: the reader goes back to the start.
unfoldable pub took_gap : LoopBuffer → ℕ → LoopBuffer
unfolding removed regained
took_gap b n = removed (record (regained b) { read_pos = 0 }) n

unfoldable pub took_both : LoopBuffer → ℕ → LoopBuffer
unfolding removed regained
took_both b n = removed (record (regained b) { read_pos = n - (b.actual_size - b.read_pos) }) n

abbrev pub taken : ℕ → List ℕ → LoopBuffer → Option Taken
taken n bytes b = some (record { count = n; bytes = bytes; after = b })

module _ (b : LoopBuffer) (n : ℕ) (v : IsValid b) (some_byte : 0 < n)
    (holds : 0 < b.used_size) where
  pub read_linear_lem :
      IsLinear b
      → read_linear b n
        ≡ taken
            (min n b.used_size)
            (slice b.buffer b.read_pos (min n b.used_size))
            (took_right b (min n b.used_size))
  unfolding read_linear took_right
  read_linear_lem l = ground arith

  pub read_right_lem :
      IsWrapped b
      → n ≤ b.actual_size - b.read_pos
      → (n ≡ b.actual_size - b.read_pos → b.padding ≡ 0)
      → read_wrapped b n ≡ taken n (slice b.buffer b.read_pos n) (took_right b n)
  unfolding read_wrapped took_right
  read_right_lem w h p = ground arith

  pub read_gap_lem :
      IsWrapped b
      → n ≡ b.actual_size - b.read_pos
      → 0 < b.padding
      → read_wrapped b n ≡ taken n (slice b.buffer b.read_pos n) (took_gap b n)
  unfolding read_wrapped took_gap
  read_gap_lem w h p = ground arith

  -- The bytes of a read over the end, for the size that the code settles on.
  abbrev pub both : ℕ → Option Taken
  both size =
      taken size
        (slice b.buffer b.read_pos (b.actual_size - b.read_pos)
          ++ slice b.buffer 0 (size - (b.actual_size - b.read_pos)))
        (took_both b size)

  pub read_both_enough :
      IsWrapped b → b.actual_size - b.read_pos < n → n ≤ b.used_size → read_wrapped b n ≡ both n
  unfolding read_wrapped took_both
  read_both_enough w h m = ground arith

  pub read_both_short :
      IsWrapped b
      → b.actual_size - b.read_pos < n
      → b.used_size < n
      → read_wrapped b n ≡ both b.used_size
  unfolding read_wrapped took_both
  read_both_short w h m = ground arith
