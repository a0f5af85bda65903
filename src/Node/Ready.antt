-- ===== src/Node/Ready.antt =====
-- What holds of a node between two rounds of `recv`, and what a complete message does.
use g_max_linked.Base.{
  ℕ, ◌+◌, ◌≤◌, ◌<◌, ◌≡◌, refl, sym, ap, ◌∙◌, ◌⊎◌, inl, inr, true, false, Bool-cases, some, List, [],
  ◌∷◌, ◌++◌, arith, length, take, drop, take-append-drop, append-nil, append_assoc, length-take,
}
use g_max_linked.Base.Bytes.{splice, slice-splice_end}
use g_max_linked.Message.{header_size, msg_max_length, size_of, set_ext}
use g_max_linked.Message.Codec.{length-set_ext, size_of-append}
use g_max_linked.LoopBuffer.{LoopBuffer}
use g_max_linked.LoopBuffer.Invariant.{IsValid, contents}
use g_max_linked.LoopBuffer.Write.{fits}
use g_max_linked.MessageQueue.{put_message}
use g_max_linked.MessageQueue.History.{joined}
use g_max_linked.Node.{Node, Round, goes_on, returns, deliver, append_bytes}
use g_max_linked.Node.Packets.{AllPackets, stamped, front_eq}
use g_max_linked.Node.Deliver.{held, emptied, stuck_full, deliver_lem}

-- Before the header is there, and after.
pub record InHeader (n : Node) : Type 0 where
  pub no_size : n.recv_due_size ≡ 0
  pub short : n.recv_offset < header_size

pub record InBody (n : Node) : Type 0 where
  pub headed : header_size ≤ n.recv_offset
  pub short : n.recv_offset < n.recv_due_size
  pub bounded : n.recv_due_size ≤ msg_max_length
  pub size : size_of (held n) ≡ n.recv_due_size

-- Between two rounds: what is held, what is on its way and what the peer has yet to send are the
-- messages `ms`.
pub record Ready (n : Node) (q : LoopBuffer) (pend : List ℕ) (ms : List (List ℕ)) (future : List ℕ)
    : Type 0 where
  pub sized : length n.recv_buffer ≡ msg_max_length
  pub phase : InHeader n ⊎ InBody n
  pub valid : IsValid q
  pub packets : AllPackets ms
  pub stream : (held n ++ pend) ++ future ≡ joined ms

-- The queue takes each of the messages, one after the other.
pub data Takes : LoopBuffer → List (List ℕ) → LoopBuffer → Type 0 where
  all_in : {q : LoopBuffer} → Takes q [] q
  one_in :
      {q q' q'' : LoopBuffer} {m : List ℕ} {ms : List (List ℕ)}
      → put_message q m ≡ some (true, q')
      → Takes q' ms q''
      → Takes q (m ∷ ms) q''

-- After a round that read bytes: some messages went to the queue and the node is ready for the
-- others, or the queue is full and nothing went there.
pub data After {S : Type 0} (self : ℕ) (q : LoopBuffer) (s : S) (pend : List ℕ) (ms : List (List ℕ))
    (future : List ℕ) : Round S → Type 0 where
  on :
      {n' : Node} {q' : LoopBuffer} (done rest : List (List ℕ))
      → ms ≡ done ++ rest
      → Ready n' q' pend rest future
      → n'.transaction ≡ self
      → Takes q (stamped self done) q'
      → contents q' ≡ contents q ++ joined (stamped self done)
      → After self q s pend ms future (goes_on n' q' s)
  off :
      {n' : Node} {q' : LoopBuffer} (m : List ℕ) (more : List (List ℕ))
      → ms ≡ m ∷ more
      → IsValid q
      → fits q (length m) ≡ false
      → put_message q (set_ext m self) ≡ some (false, q')
      → IsValid q'
      → contents q' ≡ contents q
      → After self q s pend ms future (returns false n' q' s)

pub length-held :
    (n : Node)
    → length n.recv_buffer ≡ msg_max_length
    → n.recv_offset ≤ msg_max_length
    → length (held n) ≡ n.recv_offset
length-held n l h = omega (arith, length-take n.recv_offset n.recv_buffer)

unfoldable pub appended : Node → List ℕ → Node
appended n bytes = record n {
  recv_buffer = splice n.recv_buffer n.recv_offset bytes;
  recv_offset = n.recv_offset + length bytes;
}

pub append_bytes_lem :
    (n : Node) (bytes : List ℕ)
    → length n.recv_buffer ≡ msg_max_length
    → n.recv_offset + length bytes ≤ msg_max_length
    → (append_bytes n bytes ≡ some (appended n bytes)) × (held (appended n bytes) ≡ held n ++ bytes)
unfolding append_bytes appended
append_bytes_lem n bytes l h = (
  ground arith,
  slice-splice_end n.recv_buffer n.recv_offset 0 n.recv_offset _ bytes (omega arith) (omega arith)
      refl,
)

-- A message that is complete.
pub finish :
    {S : Type 0} (n : Node) (q : LoopBuffer) (s : S) (pend future m : List ℕ) (rest : List (List ℕ))
    → length n.recv_buffer ≡ msg_max_length
    → n.recv_offset ≡ length m
    → (held n ++ pend) ++ future ≡ joined (m ∷ rest)
    → AllPackets (m ∷ rest)
    → IsValid q
    → (r : Round S) × (deliver n q s ≡ some r) × After n.transaction q s pend (m ∷ rest) future r
finish n q s pend future m rest l o e p v =
    let assoc = append_assoc (held n) pend future in
    let (h, t) =
      front_eq (held n) (pend ++ future) m rest (sym assoc ∙ e)
        (length-held n l (omega (arith, p.0)) ∙ o) in
    let (q', d, put, v', sh, c) =
      deliver_lem n q s m l (ap (λ k. take k n.recv_buffer) (sym o) ∙ h) p.0 v in
    elim (Bool-cases (fits q (length m))) [
      | inl fit ↦ (
        goes_on (emptied n) q' s,
        d ∙ rw fit,
        on (m ∷ []) rest refl
            (record {
              sized = length-set_ext n.recv_buffer n.transaction ∙ l;
              phase = inl (omega arith);
              valid = v';
              packets = p.1;
              stream = t;
            })
            refl (one_in (put ∙ rw fit) all_in) (c ∙ rw (fit, append-nil)),
      )
      | inr full ↦ (
        returns false (stuck_full n) q' s,
        d ∙ rw full,
        off m rest refl v full (put ∙ rw full) v' (c ∙ rw full),
      )
    ]

pub size_of-held :
    (n : Node)
    → length n.recv_buffer ≡ msg_max_length
    → 2 ≤ n.recv_offset
    → n.recv_offset ≤ msg_max_length
    → size_of n.recv_buffer ≡ size_of (held n)
size_of-held n l h h' =
    ap size_of (sym (take-append-drop n.recv_offset n.recv_buffer))
    ∙ size_of-append (held n) (drop n.recv_offset n.recv_buffer) (omega (arith, length-held n l h'))
