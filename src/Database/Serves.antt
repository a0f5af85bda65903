-- ===== src/Database/Serves.antt =====
-- On a database that takes every command, `sendMessage` succeeds.
use g_max_linked.Base.{
  ℕ, ◌≡◌, ◌∙◌, refl, ap, Bool, true, false, not, Option, none, some, List, [], ◌∷◌, if◌then◌else◌,
  ◌==◌,
}
use g_max_linked.ConfReader.{strtol}
use g_max_linked.Config.{Redis}
use g_max_linked.Database.Run.{
  Command, hincrby_message_id, hmset_message, zadd_user, zadd_group, zrange_members, Element,
  string_element, Reply, integer, array, Outside, Operator, ◌>>=◌, ◌>>◌, pure, assert_that,
}
use g_max_linked.Database.Operator.{error_handler, connect}
use g_max_linked.Database.Connect.{accepted, error_handler-accepted, checked-accepted}
use g_max_linked.Database.Send.{
  dst_type, dst_id, json, add_members, add_reply, send_to_user, send_to_group, store, new_id,
  numbering, send_message,
}
use g_max_linked.Database.Sent.{
  queued, members, stored_log, user_log, group_log, members_log, sent_log,
}

abbrev pub strings : List (List ℕ) → List Element
strings [] = []
strings (s ∷ ss) = string_element s ∷ strings ss

-- No command fails, a new number is a number, and the members of a group are strings.
pub record IsServing (out : Outside) : Type 0 where
  pub accepts : (log : List Command) (c : Command) → accepted (out.replies log c) ≡ true
  pub numbers : (log : List Command) → (n : ℕ) × (out.replies log hincrby_message_id ≡ integer n)
  pub lists :
      (log : List Command) (group : ℕ)
      → (us : List (List ℕ)) × (out.replies log (zrange_members group) ≡ array (strings us))

module _ (out : Outside) (cfg : Redis) (depth : ℕ) (serving : IsServing out) where
  add_members-strings :
      (time id : ℕ) (us : List (List ℕ)) (s : Operator)
      → add_members out cfg depth time id (strings us) s
        ≡ some (true, record s { log = queued time id (strings us) s.log })
  unfolding add_members
  add_members-strings time id [] s = refl
  add_members-strings time id (u ∷ us) s =
      add_members-strings time id us (record s { log = zadd_user (strtol u) time id ∷ s.log })

  add_reply-strings :
      (time id : ℕ) (r : Reply) (us : List (List ℕ)) (s : Operator)
      → r ≡ array (strings us)
      → add_reply out cfg depth time id r s
        ≡ some (true, record s { log = queued time id (members r) s.log })
  unfolding add_reply
  add_reply-strings time id r us s e = rw e (add_members-strings time id us s)

  module _ (own_id : ℕ) (msg : List ℕ) (id : ℕ) (s : Operator) (c : s.context ≡ true) where
    send_to_user-serves :
        send_to_user out cfg depth msg id (record s { log = stored_log out own_id msg id s.log })
        ≡ some (true, record s { log = user_log out own_id msg id s.log })
    unfolding send_to_user
    send_to_user-serves =
        let log = stored_log out own_id msg id s.log in
        let q = zadd_user (dst_id msg) (out.clock log) id in
        error_handler-accepted (connect out cfg depth) (out.replies log q)
          (record s { log = user_log out own_id msg id s.log }) c (serving.accepts log q)

    send_to_group-serves :
        send_to_group out cfg depth msg id (record s { log = stored_log out own_id msg id s.log })
        ≡ some (true, record s { log = members_log out own_id msg id s.log })
    unfolding send_to_group
    send_to_group-serves =
        let stored : List Command = stored_log out own_id msg id s.log in
        let time = out.clock stored in
        let log : List Command = group_log out own_id msg id s.log in
        let q : Command = zrange_members (dst_id msg) in
        let r' : Reply = out.replies log q in
        checked-accepted (connect out cfg depth)
          (out.replies stored (zadd_group (dst_id msg) time id)) false
          (λ o.
            (error_handler (connect out cfg depth) (out.replies o.log q) >>= λ ok.
            if not ok then pure false else add_reply out cfg depth time id (out.replies o.log q))
              (record o { log = q ∷ o.log }))
          (record s { log = log }) c (serving.accepts stored (zadd_group (dst_id msg) time id))
        ∙ checked-accepted (connect out cfg depth) r' false (add_reply out cfg depth time id r')
            (record s { log = q ∷ log }) c (serving.accepts log q)
        ∙ add_reply-strings time id r' (serving.lists log (dst_id msg)).0
            (record s { log = q ∷ log }) (serving.lists log (dst_id msg)).1

    by_type-serves :
        (user group : Bool)
        → (if user
              then send_to_user out cfg depth msg id
              else if group
              then send_to_group out cfg depth msg id
              else pure true)
            (record s { log = stored_log out own_id msg id s.log })
          ≡ some (
            true,
            record s {
              log =
                  if user
                  then user_log out own_id msg id s.log
                  else if group
                  then members_log out own_id msg id s.log
                  else stored_log out own_id msg id s.log;
            },
          )
    by_type-serves true group = send_to_user-serves
    by_type-serves false true = send_to_group-serves
    by_type-serves false false = refl

    store-serves :
        store out cfg depth own_id msg id (record s { log = hincrby_message_id ∷ s.log })
        ≡ some (true, record s { log = sent_log out own_id msg id s.log })
    unfolding store
    store-serves =
        let q = hmset_message id (dst_type msg) own_id (dst_id msg) (json msg) in
        checked-accepted (connect out cfg depth) (out.replies (hincrby_message_id ∷ s.log) q) false
          (if dst_type msg == 1
            then send_to_user out cfg depth msg id
            else if dst_type msg == 2
            then send_to_group out cfg depth msg id
            else pure true)
          (record s { log = stored_log out own_id msg id s.log }) c
          (serving.accepts (hincrby_message_id ∷ s.log) q)
        ∙ by_type-serves (dst_type msg == 1) (dst_type msg == 2)

  numbering-serves :
      (own_id : ℕ) (msg : List ℕ) (r : Reply) (n : ℕ) (s : Operator)
      → s.context ≡ true
      → r ≡ integer n
      → numbering out cfg depth own_id msg r (record s { log = hincrby_message_id ∷ s.log })
        ≡ some ((true, n), record s { log = sent_log out own_id msg n s.log })
  unfolding numbering new_id
  numbering-serves own_id msg r n s c e = rw e (
      ap
        (λ (o : Option (Bool × Operator)). elim o [
          | none ↦ none
          | some (done, t) ↦ some ((done, n), t)
        ])
        (store-serves own_id msg n s c))

  -- On a connection to a database that takes every command, gives numbers for messages and lists the
  -- members of groups, `sendMessage` answers true: the message has the number that the database gave,
  -- and it is in the queues of all its receivers.
  pub send_message-serves :
      (own_id : ℕ) (msg : List ℕ) (id : ℕ) (s : Operator)
      → s.context ≡ true
      → let n = (serving.numbers s.log).0 in
        send_message out cfg depth own_id msg id s
        ≡ some ((true, n), record s { log = sent_log out own_id msg n s.log })
  unfolding send_message numbering
  send_message-serves own_id msg id s c =
      let r : Reply = out.replies s.log hincrby_message_id in
      ap
        (λ (b : Bool).
          (assert_that b >> (λ (o : Operator).
              (error_handler (connect out cfg depth) (out.replies o.log hincrby_message_id)
                  >>= λ ok.
                      if not ok
                      then pure (false, id)
                      else numbering out cfg depth own_id msg
                          (out.replies o.log hincrby_message_id))
                (record o { log = hincrby_message_id ∷ o.log })))
            s)
        c
      ∙ checked-accepted (connect out cfg depth) r (false, id)
          (numbering out cfg depth own_id msg r) (record s { log = hincrby_message_id ∷ s.log }) c
          (serving.accepts s.log hincrby_message_id)
      ∙ numbering-serves own_id msg r (serving.numbers s.log).0 s c (serving.numbers s.log).1
