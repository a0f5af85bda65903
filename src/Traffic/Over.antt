-- ===== src/Traffic/Over.antt =====
-- The message that says that a connection is over (`CTransaction::__onStop` by way of the queue of the
-- group), taken by the round of the group's thread.
use g_max_linked.Base.{
  ℕ, ◌^◌, ◌≤◌, ◌<◌, ◌≡◌, ◌≢◌, refl, sym, ap, ◌∙◌, true, false, ◌||◌, some, List, [], ◌∷◌, ◌++◌,
  append-nil, ==_refl, ne→not_==, length, take, length-take, arith,
}
use g_max_linked.Base.Bytes.{slice}
use g_max_linked.Message.{size_of, encode, decode, field, to_bytes, of_bytes, msg_max_length}
use g_max_linked.Message.Codec.{decode-take, slice-take}
use g_max_linked.LoopBuffer.{LoopBuffer}
use g_max_linked.LoopBuffer.Invariant.{IsValid, contents}
use g_max_linked.MessageQueue.Order.{IsFrame, fetch_lem}
use g_max_linked.Transaction.Act.{
  Transaction, Answers, Settings, ExitReason, cannot_recv_data, reason_code,
}
use g_max_linked.Transaction.Pdu.{over_message}
use g_max_linked.Transaction.Handlers.{is_connected, is_ready, is_over, on_stop}
use g_max_linked.Transaction.Messages.{on_message}
use g_max_linked.Transaction.Lifecycle.{IsLive}
use g_max_linked.Transaction.Ends.{Ended, on_stop_lem}
use g_max_linked.TransactionManager.Internal.{over_message-parts, on_message-on_stop}
use g_max_linked.NodeGroup.Dispatch.{Group, set_transaction, finish, rolling_queue}
use g_max_linked.NodeGroup.Served.{hand_over-finish, rolling_queue-hand_over}

pub over_message-IsFrame :
    (self version stmp : ℕ) (reason : ExitReason) → IsFrame (over_message self version stmp reason)
unfolding over_message encode to_bytes size_of
over_message-IsFrame self version stmp reason = record {
  sized = refl;
  longer = omega arith;
  shorter = omega arith;
}

pub length-over_message :
    (self version stmp : ℕ) (reason : ExitReason)
    → length (over_message self version stmp reason) ≡ 33
unfolding over_message encode to_bytes
length-over_message self version stmp reason = refl

-- A reason of the switch of `__onStop`.
abbrev pub IsStop : ExitReason → Type 0
IsStop reason = (0 < reason_code reason) × (reason_code reason ≤ reason_code cannot_recv_data)

-- The session at `a` has ended, its node is to be recycled, and nothing else has changed.
pub record Gone (g : Group) (a : ℕ) (g' : Group) : Type 0 where
  pub ended : Ended (g.transactions a) (g'.transactions a)
  pub others : (b : ℕ) → b ≢ a → g'.transactions b ≡ g.transactions b
  pub recycled : g'.recycled ≡ g.recycled ++ a ∷ []
  pub empty : contents g'.queue ≡ []

module _ (env : Answers) (cfg : Settings) where
  -- The buffer holds the message at its front.
  on_message-over :
      (buffer : List ℕ) (a version stmp : ℕ) (reason : ExitReason) (t : Transaction) (n : ℕ)
      → a < 2 ^ 64
      → version < 2 ^ 16
      → stmp < 2 ^ 64
      → 33 ≤ n
      → take n buffer ≡ over_message a version stmp reason
      → ((decode buffer).ext ≡ a)
        × (on_message env cfg buffer t ≡ on_stop env cfg (reason_code reason) t)
  unfolding field of_bytes
  on_message-over buffer a version stmp reason t n i v m l front =
      let (type, cmd, ext, code) = over_message-parts a version stmp reason i v m in
      let same : decode buffer ≡ decode (over_message a version stmp reason) =
        sym (decode-take buffer n (omega arith)) ∙ ap decode front in
      (
        ap (λ h. h.ext) same ∙ ext,
        on_message-on_stop env cfg buffer t (ap (λ h. h.type) same ∙ type)
              (ap (λ h. h.cmd) same ∙ cmd)
            ∙ ap (λ c. on_stop env cfg c t) (field_front ∙ code),
      )
    where
      field_front : field buffer 29 4 ≡ field (over_message a version stmp reason) 29 4
      field_front =
          ap of_bytes (sym (slice-take buffer n 29 4 l)) ∙ ap (λ b. of_bytes (slice b 29 4)) front

  finish-Gone :
      (g : Group) (q : LoopBuffer) (buffer : List ℕ) (a : ℕ) (t' : Transaction)
      → contents q ≡ []
      → Ended (g.transactions a) t'
      → (g' : Group) × (finish env cfg (record g { queue = q; buffer = buffer }) a false t'
          ≡ some (true, g'))
        × Gone g a g'
  unfolding finish
  finish-Gone g q buffer a t' c e = (
    record g {
      queue = q;
      buffer = buffer;
      transactions = set_transaction g.transactions a t';
      recycled = g.recycled ++ a ∷ [];
    },
    rw (ap is_over e.is_over) refl,
    record {
      ended = rw (==_refl a) e;
      others = λ b n. rw (ne→not_== b a n) refl;
      recycled = refl;
      empty = c;
    },
  )

  pub rolls-over :
      (g : Group) (q : LoopBuffer) (a version stmp : ℕ) (reason : ExitReason)
      → a ≢ 0
      → a < 2 ^ 64
      → version < 2 ^ 16
      → stmp < 2 ^ 64
      → IsStop reason
      → IsValid q
      → length g.buffer ≡ msg_max_length
      → contents q ≡ over_message a version stmp reason
      → IsLive (g.transactions a)
      → (g' : Group) × (rolling_queue env cfg (record g { queue = q }) ≡ some (true, g'))
        × Gone g a g'
  rolls-over g q a version stmp reason nonzero i v m stops valid room c live =
      let msg : List ℕ = over_message a version stmp reason in
      let t : Transaction = g.transactions a in
      let (r, e, found, v', s, c', l, front) =
        fetch_lem q g.buffer msg [] valid room (over_message-IsFrame a version stmp reason)
          (c ∙ sym (append-nil msg)) in
      let long : 33 ≤ size_of r.buffer = omega (
        arith,
        ap length front,
        length-over_message a version stmp reason,
        length-take (size_of r.buffer) r.buffer,
      ) in
      let (ext, runs) =
        on_message-over r.buffer a version stmp reason t (size_of r.buffer) i v m long front in
      let (t', stop, ended) = on_stop_lem env cfg (reason_code reason) t stops.0 stops.1 in
      let (g', f, gone) = finish-Gone g r.queue r.buffer a t' c' ended in
      (
        g',
        rolling_queue-hand_over env cfg (record g { queue = q }) r e found
            ∙ hand_over-finish env cfg g r.queue r.buffer a nonzero ext false t' (live_test t live)
                (runs ∙ stop)
            ∙ f,
        gone,
      )
    where
      live_test : (t : Transaction) → IsLive t → (is_connected t.status || is_ready t.status) ≡ true
      live_test t l = ground arith
