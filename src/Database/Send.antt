-- ===== src/Database/Send.antt =====
-- `sendMessage`: a message is stored under a new number and queued for its receivers.
use g_max_linked.Base.{ℕ, Bool, true, false, not, List, [], ◌∷◌, if◌then◌else◌, ◌==◌, drop}
use g_max_linked.Message.{field}
use g_max_linked.ConfReader.{strtol}
use g_max_linked.Config.{Redis}
use g_max_linked.Transaction.Act.{c_string}
use g_max_linked.Database.Run.{
  hincrby_message_id, hmset_message, zadd_user, zadd_group, zrange_members, Element, nil_element,
  string_element, other_element, Reply, no_reply, failed, nil, status, integer, string, array,
  Outside, Operator, Code, ◌>>=◌, ◌>>◌, pure, get, fault, assert_that, command,
}
use g_max_linked.Database.Operator.{error_handler, connect}

-- `TPDUSendMsg`, in the bytes from its address on.
abbrev pub dst_type : List ℕ → ℕ
dst_type msg = field msg 29 1

abbrev pub dst_id : List ℕ → ℕ
dst_id msg = field msg 30 8

abbrev pub json : List ℕ → List ℕ
json msg = c_string (drop 38 msg)

module _ (out : Outside) (cfg : Redis) (depth : ℕ) where
  -- The loop over the members of a group. The replies are not looked at.
  unfoldable pub add_members : ℕ → ℕ → List Element → Code Operator Bool
  add_members time id [] = pure true
  add_members time id (nil_element ∷ es) = fault
  add_members time id (string_element user ∷ es) = do
    _ ← command out (zadd_user (strtol user) time id)
    add_members time id es
  add_members time id (other_element ∷ es) = fault

  unfoldable pub add_reply : ℕ → ℕ → Reply → Code Operator Bool
  unfolding add_members
  add_reply time id nil = pure true
  add_reply time id (array es) = add_members time id es
  add_reply time id no_reply = fault
  add_reply time id failed = fault
  add_reply time id status = fault
  add_reply time id (integer n) = fault
  add_reply time id (string s) = fault

  unfoldable pub send_to_user : List ℕ → ℕ → Code Operator Bool
  unfolding error_handler connect
  send_to_user msg id = do
    s ← get
    r ← command out (zadd_user (dst_id msg) (out.clock s.log) id)
    error_handler (connect out cfg depth) r

  unfoldable pub send_to_group : List ℕ → ℕ → Code Operator Bool
  unfolding error_handler connect add_reply
  send_to_group msg id = do
    s ← get
    let time = out.clock s.log
    r ← command out (zadd_group (dst_id msg) time id)
    ok ← error_handler (connect out cfg depth) r
    if not ok then pure false else (do
      r' ← command out (zrange_members (dst_id msg))
      ok' ← error_handler (connect out cfg depth) r'
      if not ok' then pure false else add_reply time id r')

  -- From the message's number on.
  unfoldable pub store : ℕ → List ℕ → ℕ → Code Operator Bool
  unfolding error_handler connect send_to_user send_to_group
  store own_id msg id = do
    r ← command out (hmset_message id (dst_type msg) own_id (dst_id msg) (json msg))
    ok ← error_handler (connect out cfg depth) r
    if not ok
        then pure false
        else if dst_type msg == 1
        then send_to_user msg id
        else if dst_type msg == 2
        then send_to_group msg id
        else pure true

  unfoldable pub new_id : Reply → Code Operator ℕ
  new_id (integer n) = pure n
  new_id no_reply = fault
  new_id failed = fault
  new_id nil = fault
  new_id status = fault
  new_id (string s) = fault
  new_id (array es) = fault

  unfoldable pub numbering : ℕ → List ℕ → Reply → Code Operator (Bool × ℕ)
  unfolding store new_id
  numbering own_id msg r = do id ← new_id r; done ← store own_id msg id; pure (done, id)

  -- `own_id` is the transaction's; the last argument is what `messageId` is before the call, and the
  -- second part of the result what it is behind it.
  unfoldable pub send_message : ℕ → List ℕ → ℕ → Code Operator (Bool × ℕ)
  unfolding error_handler connect numbering
  send_message own_id msg id = do
    s ← get
    assert_that s.context
    r ← command out hincrby_message_id
    ok ← error_handler (connect out cfg depth) r
    if not ok then pure (false, id) else numbering own_id msg r
