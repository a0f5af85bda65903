-- ===== src/Database/Tests.antt =====
-- `CRedisOperator` on a small server.
use g_max_linked.Base.{
  ℕ, ◌≡◌, refl, Bool, true, false, Option, none, some, List, [], ◌∷◌, ◌++◌, arith, if◌then◌else◌,
  ◌==◌,
}
use g_max_linked.Message.{field, to_bytes, of_bytes}
use g_max_linked.ConfReader.{strtol, digits}
use g_max_linked.Config.{Redis, Msg, codes}
use g_max_linked.Transaction.Act.{Answers, Settings, ready, first, c_string}
use g_max_linked.Transaction.Handlers.{send}
use g_max_linked.Transaction.Messages.{handle_push_message}
use g_max_linked.Transaction.Reach.{create}
use g_max_linked.Transaction.Lifecycle.{IsValid}
use g_max_linked.Database.Run.{
  Command, connect_to, auth, select, zscore_session, hincrby_message_id, hmset_message, zadd_user,
  zadd_group, zrange_members, zcount_user, zrange_user, zrange_user_after, hmget_message,
  nil_element, Reply, no_reply, status, integer, string, array, refused, open_connection, Outside,
  Operator,
}
use g_max_linked.Database.Operator.{
  after_reply, error_handler, connect, session_score, verify_handshake,
}
use g_max_linked.Database.Send.{
  add_members, add_reply, send_to_group, store, new_id, numbering, send_message,
}
use g_max_linked.Database.Check.{
  Session, four_parts, stored, push_stored, push_one, push_all, push_listed, push_reply, skipped,
  push_from, push_counted, push_newest, check_messages,
}
use g_max_linked.Database.Connect.{accepted, connect-drops}
use g_max_linked.Database.Sent.{sent_log, send_message-sent}
use g_max_linked.Database.Serves.{strings, IsServing, send_message-serves}
use g_max_linked.Database.Outage.{lost, verify_handshake-outage}
use g_max_linked.Database.Progress.{SameUser, check_messages-IsValid}

-- A server that knows one session, one group with two members, and two messages, of which the second
-- has lost a part.
abbrev answer : List Command → Command → Reply
answer log (zscore_session s) = string (codes "33")
answer log hincrby_message_id = integer 5
answer log (zrange_members g) = array (strings (codes "33" ∷ codes "34" ∷ []))
answer log (zcount_user u) = integer 2
answer log (zrange_user u offset limit) =
    array (strings (codes "3" ∷ codes "700" ∷ codes "4" ∷ codes "800" ∷ []))
answer log (hmget_message k) =
    if first k == b'3'
    then array (strings (codes "1" ∷ codes "34" ∷ codes "33" ∷ codes "hi" ∷ []))
    else array (nil_element ∷ strings (codes "34" ∷ codes "33" ∷ codes "hi" ∷ []))
answer log other = status

abbrev server : Outside
server = record { connects = λ log. open_connection; replies = answer; clock = λ log. 1000 }

-- The same, when it drops each command, and does or does not take a new connection.
abbrev dropping : Outside
dropping = record {
  connects = λ log. open_connection;
  replies = λ log c. no_reply;
  clock = λ log. 1000;
}

abbrev dead : Outside
dead = record { connects = λ log. refused; replies = λ log c. no_reply; clock = λ log. 1000 }

abbrev cfg : Redis
cfg = record { host = codes "localhost"; port = 6379; timeout = 1; auth = codes "123456"; db = 0 }

abbrev msg : Msg
msg = record { valid_duration = 500; valid_number = 8 }

abbrev env : Answers
env calls c = 7

abbrev app : Settings
app = record { heartbeat_interval = 10; protocol_version = 256; base_build = 0 }

abbrev fresh : Operator
fresh = record { context = false; log = [] }

abbrev open_one : Operator
open_one = record { context = true; log = [] }

connect-drops_example : connect dropping cfg 1000 fresh ≡ none
connect-drops_example = connect-drops dropping cfg 1000 fresh (λ log. refl) (λ log. refl)

-- A message of user 33 to group 2.
abbrev group_message : List ℕ
group_message =
    1
    ∷ 1
    ∷ 1
    ∷ 1
    ∷ 1
    ∷ 1
    ∷ 1
    ∷ 1
    ∷ 1
    ∷ 1
    ∷ 1
    ∷ 1
    ∷ 1
    ∷ 1
    ∷ 1
    ∷ 1
    ∷ 1
    ∷ 1
    ∷ 1
    ∷ 1
    ∷ 1
    ∷ 1
    ∷ 1
    ∷ 1
    ∷ 1
    ∷ 1
    ∷ 1
    ∷ 1
    ∷ 1
    ∷ (to_bytes 1 2 ++ to_bytes 8 2 ++ codes "hi" ++ 0 ∷ [])

abbrev group_sent : List Command
group_sent =
    zadd_user 34 1000 5
    ∷ zadd_user 33 1000 5
    ∷ zrange_members 2
    ∷ zadd_group 2 1000 5
    ∷ hmset_message 5 2 33 2 (codes "hi")
    ∷ hincrby_message_id
    ∷ []

send_test :
    send_message server cfg 1 33 group_message 0 open_one
    ≡ some ((true, 5), record { context = true; log = group_sent })
unfolding send_message error_handler after_reply numbering new_id store send_to_group add_reply
    add_members field of_bytes to_bytes c_string strtol digits
send_test = refl

send_message-sent_example :
    (true ≡ true)
    × (answer [] hincrby_message_id ≡ integer 5)
    × (record { context = true; log = group_sent }
        ≡ record open_one { log = sent_log server 33 group_message 5 [] })
send_message-sent_example =
    send_message-sent server cfg 1 33 group_message 0 5 open_one
      (record { context = true; log = group_sent }) send_test

answer-accepted : (log : List Command) (c : Command) → accepted (answer log c) ≡ true
answer-accepted log (zscore_session s) = refl
answer-accepted log hincrby_message_id = refl
answer-accepted log (zrange_members g) = refl
answer-accepted log (zcount_user u) = refl
answer-accepted log (zrange_user u offset limit) = refl
answer-accepted log (hmget_message k) = ground arith
answer-accepted log (connect_to host port timeout) = refl
answer-accepted log (auth password) = refl
answer-accepted log (select n) = refl
answer-accepted log (hmset_message id type own ext text) = refl
answer-accepted log (zadd_user u time id) = refl
answer-accepted log (zadd_group g time id) = refl
answer-accepted log (zrange_user_after u last limit) = refl

abbrev serving : IsServing server
serving = record {
  accepts = answer-accepted;
  numbers = λ log. (5, refl);
  lists = λ log g. (codes "33" ∷ codes "34" ∷ [], refl);
}

send_message-serves_example :
    send_message server cfg 1 33 group_message 0 open_one
    ≡ some ((true, 5), record open_one { log = sent_log server 33 group_message 5 [] })
send_message-serves_example =
    send_message-serves server cfg 1 serving 33 group_message 0 open_one refl

abbrev online : Session
online = record {
  operator = open_one;
  transaction = record (create 100) {
    status = ready;
    keep_live_timer_id = 7;
    session_id = codes "S";
    id = 33;
    heartbeat = true;
  };
}

online-IsValid : IsValid online.transaction
online-IsValid = ground arith

abbrev last_update_of : Option (Bool × Session) → Option (ℕ × List Command)
last_update_of none = none
last_update_of (some (b, s)) = some (s.transaction.last_update, s.operator.log)

abbrev or_online : Option (Bool × Session) → Session
or_online none = online
or_online (some (b, s)) = s

verify_handshake-outage_example :
    (verify_handshake dead cfg 1 (codes "S") open_one
      ≡ some (0, lost dead cfg 0 (codes "S") open_one))
    × ((other : List ℕ)
        → verify_handshake dead cfg 0 other (lost dead cfg 0 (codes "S") open_one) ≡ none)
    × ((own_id : ℕ) (m : List ℕ) (id : ℕ)
        → send_message dead cfg 0 own_id m id (lost dead cfg 0 (codes "S") open_one) ≡ none)
    × ((t : Session)
        → check_messages dead cfg msg 0 env app
            (record t { operator = lost dead cfg 0 (codes "S") open_one })
          ≡ none)
verify_handshake-outage_example =
    verify_handshake-outage dead cfg 0 msg env app (codes "S") open_one (λ e. omega arith) refl refl
      refl

handshake_test :
    verify_handshake server cfg 1 (codes "S" ++ 0 ∷ []) open_one
    ≡ some (33, record { context = true; log = zscore_session (codes "S") ∷ [] })
unfolding verify_handshake error_handler after_reply session_score c_string strtol digits
handshake_test = refl

abbrev listed : List Command
listed =
    hmget_message (codes "4") ∷ hmget_message (codes "3") ∷ zrange_user 33 0 8 ∷ zcount_user 33 ∷ []

-- Of the two messages the first is pushed; the last update is its time.
check_test : last_update_of (check_messages server cfg msg 1 env app online) ≡ some (700, listed)
unfolding check_messages push_newest push_counted push_from push_reply push_listed push_all push_one
    push_stored stored four_parts skipped error_handler after_reply handle_push_message send create
    c_string strtol digits
check_test = refl

after_check : Session
after_check = or_online (check_messages server cfg msg 1 env app online)

check_messages-IsValid_example :
    IsValid after_check.transaction
    × (after_check.transaction.status ≡ ready)
    × SameUser online.transaction after_check.transaction
unfolding after_check check_messages push_newest push_counted push_from push_reply push_listed
    push_all push_one push_stored stored four_parts skipped error_handler after_reply
    handle_push_message send create c_string strtol digits
check_messages-IsValid_example =
    check_messages-IsValid server cfg msg 1 env app online after_check true online-IsValid refl refl
