-- ===== src/Database/Sent.antt =====
-- What `sendMessage` has sent to the database when it answers true, and that it does answer true if
-- the database takes its commands.
use g_max_linked.Base.{
  ℕ, ◌≡◌, refl, Bool, true, false, not, Option, none, some, List, [], ◌∷◌, if◌then◌else◌, ◌==◌,
  arith,
}
use g_max_linked.ConfReader.{strtol}
use g_max_linked.Config.{Redis}
use g_max_linked.Database.Run.{
  Command, hincrby_message_id, hmset_message, zadd_user, zadd_group, zrange_members, Element,
  nil_element, string_element, other_element, Reply, no_reply, failed, nil, status, integer, string,
  array, Outside, Operator, Code, ◌>>=◌, ◌>>◌, pure, assert_that,
}
use g_max_linked.Database.Operator.{error_handler, connect}
use g_max_linked.Database.Connect.{accepted, error_handler-Passed, checked-Passed}
use g_max_linked.Database.Send.{
  dst_type, dst_id, json, add_members, add_reply, send_to_user, send_to_group, store, new_id,
  numbering, send_message,
}

abbrev pub members : Reply → List Element
members (array es) = es
members no_reply = []
members failed = []
members nil = []
members status = []
members (integer n) = []
members (string s) = []

-- The log behind one command for each member.
abbrev pub queued : ℕ → ℕ → List Element → List Command → List Command
queued time id [] log = log
queued time id (nil_element ∷ es) log = queued time id es log
queued time id (string_element user ∷ es) log =
    queued time id es (zadd_user (strtol user) time id ∷ log)
queued time id (other_element ∷ es) log = queued time id es log

module _ (out : Outside) (own_id : ℕ) (msg : List ℕ) (id : ℕ) where
  -- The log behind the message's number and its text.
  abbrev pub stored_log : List Command → List Command
  stored_log log =
      hmset_message id (dst_type msg) own_id (dst_id msg) (json msg) ∷ hincrby_message_id ∷ log

  -- The log when the message is in the queues of its receivers: the user's, or the group's and
  -- those of all its members at that time, with one time for all.
  abbrev pub user_log : List Command → List Command
  user_log log = zadd_user (dst_id msg) (out.clock (stored_log log)) id ∷ stored_log log

  abbrev pub group_log : List Command → List Command
  group_log log = zadd_group (dst_id msg) (out.clock (stored_log log)) id ∷ stored_log log

  abbrev pub members_log : List Command → List Command
  members_log log =
      queued (out.clock (stored_log log)) id
        (members (out.replies (group_log log) (zrange_members (dst_id msg))))
        (zrange_members (dst_id msg) ∷ group_log log)

  abbrev pub sent_log : List Command → List Command
  sent_log log =
      if dst_type msg == 1
      then user_log log
      else if dst_type msg == 2
      then members_log log
      else stored_log log

module _ (out : Outside) (cfg : Redis) (depth : ℕ) where
  add_members-queued :
      (time id : ℕ) (es : List Element) (s s' : Operator) (b : Bool)
      → add_members out cfg depth time id es s ≡ some (b, s')
      → s' ≡ record s { log = queued time id es s.log }
  unfolding add_members
  add_members-queued time id [] s s' b e = ground arith
  add_members-queued time id (nil_element ∷ es) s s' b e = absurd (cc)
  add_members-queued time id (string_element user ∷ es) s s' b e =
      add_members-queued time id es (record s { log = zadd_user (strtol user) time id ∷ s.log }) s'
        b e
  add_members-queued time id (other_element ∷ es) s s' b e = absurd (cc)

  add_reply-queued :
      (time id : ℕ) (r : Reply) (s s' : Operator) (b : Bool)
      → add_reply out cfg depth time id r s ≡ some (b, s')
      → s' ≡ record s { log = queued time id (members r) s.log }
  unfolding add_reply
  add_reply-queued time id (array es) s s' b e = add_members-queued time id es s s' b e
  add_reply-queued time id nil s s' b e = ground arith
  add_reply-queued time id no_reply s s' b e = absurd (cc)
  add_reply-queued time id failed s s' b e = absurd (cc)
  add_reply-queued time id status s s' b e = absurd (cc)
  add_reply-queued time id (integer n) s s' b e = absurd (cc)
  add_reply-queued time id (string t) s s' b e = absurd (cc)

  send_to_group-queued :
      (own_id : ℕ) (msg : List ℕ) (id : ℕ) (s s' : Operator)
      → send_to_group out cfg depth msg id (record s { log = stored_log out own_id msg id s.log })
        ≡ some (true, s')
      → s' ≡ record s { log = members_log out own_id msg id s.log }
  unfolding send_to_group
  send_to_group-queued own_id msg id s s' e =
      let time = out.clock (stored_log out own_id msg id s.log) in
      let log : List Command = group_log out own_id msg id s.log in
      let r' : Reply = out.replies log (zrange_members (dst_id msg)) in
      let p =
        checked-Passed (connect out cfg depth)
          (out.replies (stored_log out own_id msg id s.log) (zadd_group (dst_id msg) time id)) false
          (λ o.
            (error_handler (connect out cfg depth) (out.replies o.log (zrange_members (dst_id msg)))
                >>= λ ok.
                    if not ok
                    then pure false
                    else add_reply out cfg depth time id
                        (out.replies o.log (zrange_members (dst_id msg))))
              (record o { log = zrange_members (dst_id msg) ∷ o.log }))
          (record s { log = log }) true s' e (λ f. cc) in
      let q =
        checked-Passed (connect out cfg depth) r' false (add_reply out cfg depth time id r')
          (record s { log = zrange_members (dst_id msg) ∷ log }) true s' p.2 (λ f. cc) in
      add_reply-queued time id r' (record s { log = zrange_members (dst_id msg) ∷ log }) s' true q.2

  store-sent :
      (own_id : ℕ) (msg : List ℕ) (id : ℕ) (s s' : Operator)
      → store out cfg depth own_id msg id (record s { log = hincrby_message_id ∷ s.log })
        ≡ some (true, s')
      → s' ≡ record s { log = sent_log out own_id msg id s.log }
  unfolding store send_to_user
  store-sent own_id msg id s s' e = by_type (dst_type msg == 1) (dst_type msg == 2) p.2
    where
      k : Code Operator Bool
      k =
          if dst_type msg == 1
          then send_to_user out cfg depth msg id
          else if dst_type msg == 2
          then send_to_group out cfg depth msg id
          else pure true

      p :
          (s.context ≡ true)
          × (accepted (
                out.replies
                  (hincrby_message_id ∷ s.log)
                  (hmset_message id (dst_type msg) own_id (dst_id msg) (json msg)))
              ≡ true)
          × (k (record s { log = stored_log out own_id msg id s.log }) ≡ some (true, s'))
      p =
          checked-Passed (connect out cfg depth)
            (out.replies (hincrby_message_id ∷ s.log)
              (hmset_message id (dst_type msg) own_id (dst_id msg) (json msg)))
            false k (record s { log = stored_log out own_id msg id s.log }) true s' e (λ f. cc)

      by_type :
          (user group : Bool)
          → (if user
                then send_to_user out cfg depth msg id
                else if group
                then send_to_group out cfg depth msg id
                else pure true)
              (record s { log = stored_log out own_id msg id s.log })
            ≡ some (true, s')
          → s' ≡ record s {
            log =
                if user
                then user_log out own_id msg id s.log
                else if group
                then members_log out own_id msg id s.log
                else stored_log out own_id msg id s.log;
          }
      by_type true group f =
          (error_handler-Passed (connect out cfg depth)
            (out.replies (stored_log out own_id msg id s.log)
              (zadd_user (dst_id msg) (out.clock (stored_log out own_id msg id s.log)) id))
            (record s { log = user_log out own_id msg id s.log }) s' f).same
      by_type false true f = send_to_group-queued own_id msg id s s' f
      by_type false false f = ground arith

  asserted :
      {A : Type 0} (c : Bool) (k : Code Operator A) (s : Operator) (x : A × Operator)
      → (assert_that c >> k) s ≡ some x
      → (c ≡ true) × (k s ≡ some x)
  asserted true k s x e = (refl, e)
  asserted false k s x e = absurd (cc)

  numbered :
      (own_id : ℕ) (msg : List ℕ) (id' : ℕ) (r : Reply) (t s' : Operator)
      → numbering out cfg depth own_id msg r t ≡ some ((true, id'), s')
      → (r ≡ integer id') × (store out cfg depth own_id msg id' t ≡ some (true, s'))
  unfolding new_id numbering
  numbered own_id msg id' no_reply t s' e = absurd (cc)
  numbered own_id msg id' failed t s' e = absurd (cc)
  numbered own_id msg id' nil t s' e = absurd (cc)
  numbered own_id msg id' status t s' e = absurd (cc)
  numbered own_id msg id' (string x) t s' e = absurd (cc)
  numbered own_id msg id' (array es) t s' e = absurd (cc)
  numbered own_id msg id' (integer n) t s' e = by_result (store out cfg depth own_id msg n t) refl e
    where
      by_result :
          (o : Option (Bool × Operator))
          → store out cfg depth own_id msg n t ≡ o
          → ◌≡◌ {A = Option ((Bool × ℕ) × Operator)}
              (elim o [ none ↦ none | some (done, u) ↦ some ((done, n), u) ])
              (some ((true, id'), s'))
          → (integer n ≡ integer id') × (store out cfg depth own_id msg id' t ≡ some (true, s'))
      by_result none f e = absurd (cc)
      by_result (some (done, u)) f e = ground arith

  -- If `sendMessage` answers true, the database gave the message's number, the connection is still
  -- there, and exactly these commands were sent, in this order: for the number, to store the text,
  -- and, for a user, to put the number in the user's queue, or, for a group, to put it in the group's
  -- queue, to ask for the members, and to put it in the queue of each member in the order of the
  -- reply, all under one time.
  pub send_message-sent :
      (own_id : ℕ) (msg : List ℕ) (id id' : ℕ) (s s' : Operator)
      → send_message out cfg depth own_id msg id s ≡ some ((true, id'), s')
      → (s.context ≡ true)
        × (out.replies s.log hincrby_message_id ≡ integer id')
        × (s' ≡ record s { log = sent_log out own_id msg id' s.log })
  unfolding send_message numbering
  send_message-sent own_id msg id id' s s' e =
      let r : Reply = out.replies s.log hincrby_message_id in
      let next : Code Operator (Bool × ℕ) = numbering out cfg depth own_id msg r in
      let sent : Operator = record s { log = hincrby_message_id ∷ s.log } in
      let a =
        asserted s.context
          (λ o.
            (error_handler (connect out cfg depth) (out.replies o.log hincrby_message_id) >>= λ ok.
            if not ok
            then pure (false, id)
            else numbering out cfg depth own_id msg (out.replies o.log hincrby_message_id))
              (record o { log = hincrby_message_id ∷ o.log }))
          s ((true, id'), s') e in
      let p =
        checked-Passed (connect out cfg depth) r (false, id) next sent (true, id') s' a.1
          (λ f. ground arith) in
      let n = numbered own_id msg id' r sent s' p.2 in
      (a.0, n.0, store-sent own_id msg id' s s' n.1)
