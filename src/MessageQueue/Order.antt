-- ===== src/MessageQueue/Order.antt =====
-- Messages leave the queue whole and in the order in which they were put.
use g_max_linked.Base.{
  ℕ, ◌+◌, ◌-◌, ◌^◌, ◌%◌, ◌≤◌, ◌<◌, ◌≡◌, refl, sym, ap, ap₂, ◌∙◌, some, List, ◌++◌, arith, length,
  take, drop, append_assoc, length-append, take-append-drop, take_all, length-take, length-drop,
  take-add,
}
use g_max_linked.Base.Bytes.{slice, splice, length-splice, slice-splice_before, slice-splice_self}
use g_max_linked.Message.{size_of, of_bytes, msg_max_length}
use g_max_linked.LoopBuffer.{LoopBuffer, write, read}
use g_max_linked.LoopBuffer.Invariant.{IsValid, SameShape, contents, length-contents}
use g_max_linked.LoopBuffer.Takes.{read-front}
use g_max_linked.LoopBuffer.Read.{taken}
use g_max_linked.MessageQueue.{Fetch, message, put_message, fetch}

-- A message whose header gives its length, longer than the size field and no longer than a buffer.
pub record IsFrame (msg : List ℕ) : Type 0 where
  pub sized : size_of msg ≡ length msg
  pub longer : 2 < length msg
  pub shorter : length msg ≤ msg_max_length

pub put_message-frame :
    (q : LoopBuffer) (msg : List ℕ) → IsFrame msg → put_message q msg ≡ write q msg
unfolding put_message
put_message-frame q msg f = ground (arith, take_all (length msg) msg)

-- The buffer after both reads of a message.
filled : List ℕ → List ℕ → List ℕ
filled buffer msg = splice (splice buffer 0 (take 2 msg)) 2 (drop 2 msg)

module _ (buffer msg : List ℕ) (f : IsFrame msg) (room : msg_max_length ≤ length buffer) where
  head_length : length (take 2 msg) ≡ 2
  head_length = omega (arith, length-take 2 msg, f.longer)

  size_of-head : size_of (splice buffer 0 (take 2 msg)) ≡ length msg
  unfolding size_of
  size_of-head =
      ap of_bytes (
        ap (λ k. slice (splice buffer 0 (take 2 msg)) 0 k) (sym head_length)
        ∙ slice-splice_self buffer 0 (take 2 msg) (omega (arith, head_length)))
      ∙ f.sized

  size_of-filled : size_of (filled buffer msg) ≡ length msg
  unfolding size_of filled
  size_of-filled =
      ap of_bytes
        (slice-splice_before (splice buffer 0 (take 2 msg)) 2 (drop 2 msg) 0 2 (omega arith))
      ∙ size_of-head

  length-filled : length (filled buffer msg) ≡ length buffer
  unfolding filled
  length-filled =
      length-splice (splice buffer 0 (take 2 msg)) 2 (drop 2 msg)
      ∙ length-splice buffer 0 (take 2 msg)

  take-filled : take (length msg) (filled buffer msg) ≡ msg
  unfolding filled
  take-filled =
      ap (λ k. take k (filled buffer msg)) {y = 2 + length (drop 2 msg)}
        (omega (arith, length-drop 2 msg, f.longer))
      ∙ sym (take-add 2 (length (drop 2 msg)) (filled buffer msg))
      ∙ ap₂ ◌++◌
          (slice-splice_before (splice buffer 0 (take 2 msg)) 2 (drop 2 msg) 0 2 (omega arith)
            ∙ ap (λ k. slice (splice buffer 0 (take 2 msg)) 0 k) (sym head_length)
            ∙ slice-splice_self buffer 0 (take 2 msg) (omega (arith, head_length)))
          (slice-splice_self (splice buffer 0 (take 2 msg)) 2 (drop 2 msg)
            (omega (arith, length-splice buffer 0 (take 2 msg), length-drop 2 msg, f)))
      ∙ take-append-drop 2 msg

-- The two reads, and the tests between and after them.
fetch_value :
    (q q₁ q₂ : LoopBuffer) (buffer msg : List ℕ)
    → IsFrame msg
    → length buffer ≡ msg_max_length
    → 0 < q.used_size
    → read q 2 ≡ taken 2 (take 2 msg) q₁
    → read q₁ (length msg - 2) ≡ taken (length msg - 2) (drop 2 msg) q₂
    → fetch q buffer ≡ some (record { found = message; queue = q₂; buffer = filled buffer msg })
unfolding fetch filled
fetch_value q q₁ q₂ buffer msg f room held e₁ e₂ =
    let wanted : (length msg + 2 ^ 64 - 2) % 2 ^ 32 ≡ length msg - 2 = omega (arith, f) in
    ground (
      arith,
      wanted,
      head_length buffer msg f (omega arith),
      size_of-head buffer msg f (omega arith),
      length-splice buffer 0 (take 2 msg),
      length-drop 2 msg,
    )

-- If the queue holds a message and then more bytes, `_rollingQueue` takes exactly that message: it
-- does not fault, the message stands at the front of the group's buffer, as long as its size field
-- says, and the queue is valid, of the same size, and holds the rest.
pub fetch_lem :
    (q : LoopBuffer) (buffer msg rest : List ℕ)
    → IsValid q
    → length buffer ≡ msg_max_length
    → IsFrame msg
    → contents q ≡ msg ++ rest
    → (r : Fetch) × (fetch q buffer ≡ some r)
      × (r.found ≡ message)
      × IsValid r.queue
      × SameShape q r.queue
      × (contents r.queue ≡ rest)
      × (length r.buffer ≡ msg_max_length)
      × (take (size_of r.buffer) r.buffer ≡ msg)
fetch_lem q buffer msg rest v room f c =
    let two : length (take 2 msg) ≡ 2 = omega (arith, length-take 2 msg, f.longer) in
    let more : length (drop 2 msg) ≡ length msg - 2 = length-drop 2 msg in
    let front : contents q ≡ take 2 msg ++ (drop 2 msg ++ rest) =
      c
      ∙ ap (λ m. m ++ rest) (sym (take-append-drop 2 msg))
      ∙ append_assoc (take 2 msg) (drop 2 msg) rest in
    let (q₁, e₁, v₁, s₁, c₁) =
      read-front q 2 (take 2 msg) (drop 2 msg ++ rest) v front two (omega arith) in
    let (q₂, e₂, v₂, s₂, c₂) =
      read-front q₁ (length msg - 2) (drop 2 msg) rest v₁ c₁ more (omega (arith, f)) in
    (
      record { found = message; queue = q₂; buffer = filled buffer msg },
      fetch_value q q₁ q₂ buffer msg f room
          (omega (arith, length-contents q v, ap length c, length-append msg rest, f)) e₁ e₂,
      refl,
      v₂,
      (s₂.0 ∙ s₁.0, s₂.1 ∙ s₁.1),
      c₂,
      length-filled buffer msg f (omega arith) ∙ room,
      ap (λ n. take n (filled buffer msg)) (size_of-filled buffer msg f (omega arith))
          ∙ take-filled buffer msg f (omega arith),
    )
