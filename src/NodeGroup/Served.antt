-- ===== src/NodeGroup/Served.antt =====
-- What a message of the queue does to the transactions of the group.
use g_max_linked.Base.{
  ℕ, ◌≤◌, ◌≡◌, ◌≢◌, refl, sym, ap, subst, ◌∙◌, ◌⊎◌, inl, inr, Bool, true, false, ◌||◌, Bool-cases,
  Option, Option-cases, none, some, List, [], ◌∷◌, ◌++◌, arith, ne→not_==, length, take,
  length-take,
}
use g_max_linked.Message.{decode, size_of, header_size, msg_max_length}
use g_max_linked.Message.Codec.{decode-take}
use g_max_linked.LoopBuffer.{LoopBuffer}
use g_max_linked.LoopBuffer.Invariant.{IsValid, contents}
use g_max_linked.MessageQueue.{Fetch, message, fetch}
use g_max_linked.MessageQueue.Order.{IsFrame, fetch_lem}
use g_max_linked.Transaction.Act.{over_status, Transaction, Answers, Settings}
use g_max_linked.Transaction.Handlers.{is_connected, is_ready, is_over}
use g_max_linked.Transaction.Messages.{on_message}
use g_max_linked.Transaction.Lifecycle.{Handled, IsLive, on_message-Handled}
use g_max_linked.Transaction.Lifecycle as Lifecycle
use g_max_linked.NodeGroup.Dispatch.{Group, set_transaction, finish, hand_over, rolling_queue}

module _ (env : Answers) (cfg : Settings) where
  -- What `_rollingQueue` has done with a message for the transaction at `a`, that is at the front of
  -- the group's buffer. If that transaction is live, its `onMessage` gets the message. It faults only
  -- when the handler does; otherwise the transaction becomes what the handler made of it, and its node
  -- is recycled exactly when it is over. A transaction that is not live is left alone.
  pub data Served (g : Group) (a : ℕ) (msg rest : List ℕ) : Option (Bool × Group) → Type 0 where
    faults :
        (buffer : List ℕ)
        → take (size_of buffer) buffer ≡ msg
        → IsLive (g.transactions a)
        → on_message env cfg buffer (g.transactions a) ≡ none
        → Served g a msg rest none
    ignored :
        {g' : Group}
        → ¬ IsLive (g.transactions a)
        → contents g'.queue ≡ rest
        → g'.transactions ≡ g.transactions
        → g'.recycled ≡ g.recycled
        → Served g a msg rest (some (true, g'))
    lives :
        {g' : Group} (t' : Transaction)
        → take (size_of g'.buffer) g'.buffer ≡ msg
        → IsLive (g.transactions a)
        → on_message env cfg g'.buffer (g.transactions a) ≡ some (true, t')
        → Handled (g.transactions a) true t'
        → contents g'.queue ≡ rest
        → g'.transactions ≡ set_transaction g.transactions a t'
        → g'.recycled ≡ g.recycled
        → Served g a msg rest (some (true, g'))
    ends :
        {g' : Group} (t' : Transaction)
        → take (size_of g'.buffer) g'.buffer ≡ msg
        → IsLive (g.transactions a)
        → on_message env cfg g'.buffer (g.transactions a) ≡ some (false, t')
        → Handled (g.transactions a) false t'
        → t'.status ≡ over_status
        → contents g'.queue ≡ rest
        → g'.transactions ≡ set_transaction g.transactions a t'
        → g'.recycled ≡ g.recycled ++ a ∷ []
        → Served g a msg rest (some (true, g'))

  pub IsLive-test :
      (t : Transaction)
      → (IsLive t × ((is_connected t.status || is_ready t.status) ≡ true))
        ⊎ ((¬ IsLive t) × ((is_connected t.status || is_ready t.status) ≡ false))
  IsLive-test t = elim (Bool-cases (is_connected t.status || is_ready t.status)) [
    | inl e ↦ inl (ground arith, e)
    | inr e ↦ inr (λ l. ground arith, e)
  ]

  module _ (g : Group) (q : LoopBuffer) (buffer : List ℕ) (a : ℕ) (nonzero : a ≢ 0)
      (addressed : (decode buffer).ext ≡ a) where
    -- The group once the message is in its buffer.
    abbrev pub taken : Group
    taken = record g { queue = q; buffer = buffer }

    abbrev pub here : Transaction
    here = g.transactions a

    hand_over-ignored :
        (is_connected here.status || is_ready here.status) ≡ false
        → hand_over env cfg taken ≡ some (true, taken)
    unfolding hand_over
    hand_over-ignored e = rw (addressed, ne→not_== a 0 nonzero, e) refl

    hand_over-faults :
        (is_connected here.status || is_ready here.status) ≡ true
        → on_message env cfg buffer here ≡ none
        → hand_over env cfg taken ≡ none
    unfolding hand_over
    hand_over-faults e f = rw (addressed, ne→not_== a 0 nonzero, e, f) refl

    pub hand_over-finish :
        (b : Bool) (t' : Transaction)
        → (is_connected here.status || is_ready here.status) ≡ true
        → on_message env cfg buffer here ≡ some (b, t')
        → hand_over env cfg taken ≡ finish env cfg taken a b t'
    unfolding hand_over
    hand_over-finish b t' e f = rw (addressed, ne→not_== a 0 nonzero, e, f) refl

    module _ (msg rest : List ℕ) (front : take (size_of buffer) buffer ≡ msg)
        (c : contents q ≡ rest) where
      finished :
          (b : Bool) (t' : Transaction)
          → IsLive here
          → on_message env cfg buffer here ≡ some (b, t')
          → Handled here b t'
          → Served g a msg rest (finish env cfg taken a b t')
      unfolding finish
      finished true t' l o h = lives t' front l o h c refl refl
      finished false t' l o h =
          let over : t'.status ≡ over_status = h.answer.0 refl in
          let is_so : is_over t'.status ≡ true = ap is_over over in
          rw is_so (ends t' front l o h over c refl refl)

      hand_over_lem : Lifecycle.IsValid here → Served g a msg rest (hand_over env cfg taken)
      hand_over_lem v = elim (IsLive-test here) [
        | inr (idle, e) ↦
            subst (Served g a msg rest) (sym (hand_over-ignored e)) (ignored idle c refl refl)
        | inl (live, e) ↦ elim (Option-cases (on_message env cfg buffer here)) [
          | inl f ↦
              subst (Served g a msg rest) (sym (hand_over-faults e f)) (faults buffer front live f)
          | inr ((b, t'), f) ↦
              subst (Served g a msg rest) (sym (hand_over-finish b t' e f))
                (finished b t' live f (on_message-Handled env cfg here t' b buffer v live f))
        ]
      ]

  pub rolling_queue-hand_over :
      (g : Group) (r : Fetch)
      → fetch g.queue g.buffer ≡ some r
      → r.found ≡ message
      → rolling_queue env cfg g
        ≡ hand_over env cfg (record g { queue = r.queue; buffer = r.buffer })
  unfolding rolling_queue
  rolling_queue-hand_over g r e f = rw (e, f) refl

  -- Let the queue of a group start with a whole message that carries the address of a transaction,
  -- and let that transaction be valid. Then `_rollingQueue` takes the message out of the queue. If the
  -- transaction is connected or ready, it is `onMessage` of the message, at the front of the group's
  -- buffer, that decides: `_rollingQueue` faults only if that call does, so its own assert, that a
  -- transaction that answers false is over, never fails; otherwise the transaction becomes what the call
  -- left and has moved as its life allows, no other has changed, and its node is recycled exactly when
  -- the call answered false. If it is neither, nothing but the queue and the buffer changes.
  pub rolling_queue_lem :
      (g : Group) (msg rest : List ℕ) (a : ℕ)
      → IsValid g.queue
      → length g.buffer ≡ msg_max_length
      → IsFrame msg
      → header_size ≤ length msg
      → contents g.queue ≡ msg ++ rest
      → (decode msg).ext ≡ a
      → a ≢ 0
      → Lifecycle.IsValid (g.transactions a)
      → Served g a msg rest (rolling_queue env cfg g)
  rolling_queue_lem g msg rest a v room f headed c ext nonzero valid =
      let (r, e, found, v', s, c', l, front) = fetch_lem g.queue g.buffer msg rest v room f c in
      let long : header_size ≤ size_of r.buffer =
        omega (arith, headed, ap length front, length-take (size_of r.buffer) r.buffer) in
      let addressed : (decode r.buffer).ext ≡ a =
        ap (λ h. h.ext) (sym (decode-take r.buffer (size_of r.buffer) long) ∙ ap decode front)
        ∙ ext in
      subst (Served g a msg rest) (sym (rolling_queue-hand_over g r e found))
        (hand_over_lem g r.queue r.buffer a nonzero addressed msg rest front c' valid)
