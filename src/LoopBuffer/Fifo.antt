-- ===== src/LoopBuffer/Fifo.antt =====
-- A valid buffer without padding behaves as a queue of at most `_totalSize` bytes.
use g_max_linked.Base.{
  ℕ, ◌+◌, ◌<◌, ◌≡◌, refl, ◌∙◌, Bool, true, false, Option, some, List, [], ◌∷◌, ◌++◌, arith, leb,
  if◌then◌else◌, length, take, drop, length-take, ◌>>=◌,
}
use g_max_linked.LoopBuffer.{LoopBuffer, write, read}
use g_max_linked.LoopBuffer.Invariant.{IsValid, contents, length-contents}
use g_max_linked.LoopBuffer.Write.{fits}
use g_max_linked.LoopBuffer.Appends.{write_lem}
use g_max_linked.LoopBuffer.Takes.{read_lem}

-- The calls of a client, and what each returns to it.
pub data Call : Type 0 where
  put : List ℕ → Call
  get : ℕ → Call

pub data Reply : Type 0 where
  stored : Bool → Reply
  got : ℕ → List ℕ → Reply

unfoldable pub run : LoopBuffer → List Call → Option (List Reply)
run b [] = some []
run b (put bytes ∷ calls) = do
  (done, b') ← write b bytes
  replies ← run b' calls
  some (stored done ∷ replies)
run b (get n ∷ calls) = do
  t ← read b n
  replies ← run t.after calls
  some (got t.count t.bytes ∷ replies)

-- The queue: all of the bytes go in, or none of them.
unfoldable pub queue_run : ℕ → List ℕ → List Call → List Reply
queue_run cap q [] = []
queue_run cap q (put bytes ∷ calls) =
    let full = stored false ∷ queue_run cap q calls in
    let more = stored true ∷ queue_run cap (q ++ bytes) calls in
    if leb (length q + length bytes) cap then more else full
queue_run cap q (get n ∷ calls) =
    got (length (take n q)) (take n q) ∷ queue_run cap (drop n q) calls

-- The code asserts that each call asks for some byte.
abbrev pub Asks : List Call → Type 0
Asks [] = Unit {0}
Asks (put bytes ∷ calls) = (0 < length bytes) × Asks calls
Asks (get n ∷ calls) = (0 < n) × Asks calls

pub fits-unpadded :
    (b : LoopBuffer) (n : ℕ)
    → IsValid b
    → b.is_padding ≡ false
    → fits b n ≡ leb (length (contents b) + n) b.total_size
fits-unpadded b n v p = ground (arith, length-contents b v)

-- No sequence of writes and reads of some bytes each tells a valid buffer without padding from the
-- queue of the bytes that it holds, bounded by its size; and none of them faults.
pub run_refines :
    (b : LoopBuffer) (calls : List Call)
    → IsValid b
    → b.is_padding ≡ false
    → Asks calls
    → run b calls ≡ some (queue_run b.total_size (contents b) calls)
unfolding run queue_run
run_refines b [] v p a = refl
run_refines b (put bytes ∷ calls) v p a =
    let (b', e, v', s, c) = write_lem b bytes v a.0 in
    let ih = run_refines b' calls v' (s.1 ∙ p) a.1 in
    rw (e, ih, s.0, c, fits-unpadded b (length bytes) v p) (ground arith)
run_refines b (get n ∷ calls) v p a =
    let (b', e, v', s, c) = read_lem b n v a.0 in
    let ih = run_refines b' calls v' (s.1 ∙ p) a.1 in
    rw (e, ih, s.0, c) (ground (arith, length-take n (contents b), length-contents b v))
