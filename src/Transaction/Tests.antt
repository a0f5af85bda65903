-- ===== src/Transaction/Tests.antt =====
-- `CTransaction` in one small session.
use g_max_linked.Base.{
  ◌↔◌, inr, ℕ, ◌≡◌, ◌≢◌, refl, inl, true, false, Option, none, some, List, [], ◌∷◌, ◌++◌, arith,
}
use g_max_linked.Message.{encode, decode, field, to_bytes}
use g_max_linked.Transaction.Act.{
  connected, ready, over_status, status_code, Transaction, Answers, Settings, Call, set_timer,
  node_send, is_terminated,
}
use g_max_linked.Transaction.Pdu.{Push}
use g_max_linked.Transaction.Handlers.{session_of, on_start, on_stop, on_attach}
use g_max_linked.Transaction.Messages.{on_message, handle_push_message}
use g_max_linked.Transaction.Lifecycle.{IsValid, Handled, on_message-Handled}
use g_max_linked.Transaction.Reach.{create, Step, attaches, handles, here, next, Reach-IsValid}
use g_max_linked.Transaction.Faults.{Fault, on_message_faults}
use g_max_linked.Transaction.Ends.{Ended, on_stop_lem}
use g_max_linked.Transaction.Session.{Admits, Opened, start_safe, start_opens}

-- Every call is answered by 7; or, of one that is out of timers, by 1 and 0.
abbrev env : Answers
env calls c = 7

abbrev env_timerless : Answers
env_timerless calls (set_timer interval parameter kind) = 0
env_timerless calls _ = 1

abbrev cfg : Settings
cfg = record { heartbeat_interval = 20; protocol_version = 1; base_build = 5 }

abbrev session : List ℕ
session = 65 ∷ 66 ∷ 0 ∷ 0 ∷ 0 ∷ 0 ∷ 0 ∷ 0 ∷ 0 ∷ 0 ∷ 0 ∷ 0 ∷ 0 ∷ 0 ∷ 0 ∷ 0 ∷ 0 ∷ []

abbrev header : ℕ → ℕ → ℕ → ℕ → List ℕ
header size type cmd seq = encode (record {
  size = size;
  type = type;
  cmd = cmd;
  ver = 1;
  lang = 1;
  seq = seq;
  stmp = 0;
  ext = 0;
})

-- A handshake of build 6.
abbrev shake : List ℕ
shake = header 58 2 1 0 ++ to_bytes 4 6 ++ to_bytes 8 33 ++ session

abbrev joined_to : Transaction
joined_to = record (create 100) { status = connected; keep_live_timer_id = 7 }

abbrev opened : Transaction
opened = record (create 100) {
  status = ready;
  keep_live_timer_id = 7;
  session_id = session;
  id = 9;
  heartbeat = true;
  timers = (3, 11) ∷ [];
}

abbrev closed : Transaction
closed = record (create 100) { status = over_status }

joined-IsValid : IsValid joined_to
unfolding create
joined-IsValid = ground arith

opened-IsValid : IsValid opened
opened-IsValid = ground arith

closed-IsValid : IsValid closed
unfolding create
closed-IsValid = ground arith

shake-Admits : Admits env cfg joined_to shake
unfolding encode to_bytes field session_of is_terminated
shake-Admits = record {
  new_client = omega arith;
  named = omega arith;
  ended = refl;
  known = omega arith;
  unique = omega arith;
}

seven : joined_to.keep_live_timer_id ≢ 0
seven = omega arith

timers_given :
    (calls : List Call) → env calls (set_timer cfg.heartbeat_interval (status_code ready) 0) ≢ 0
timers_given calls = omega arith

goes_out : (calls : List Call) (msg : List ℕ) → env_timerless calls (node_send msg) ≢ 0
goes_out calls msg = omega arith

no_timer :
    (calls : List Call) (seq : ℕ) → env_timerless calls (set_timer cfg.heartbeat_interval seq 1) ≡ 0
no_timer calls seq = refl

-- The transaction that a call leaves.
abbrev after : {A : Type 0} → Transaction → Option (A × Transaction) → Transaction
after t none = t
after t (some (a, t')) = t'

abbrev attached : Transaction
attached = after (create 100) (on_attach env cfg (create 100))

abbrev timed_out : Transaction
timed_out = after joined_to (on_stop env cfg 3 joined_to)

attach-Step : Step env cfg (create 100) attached
unfolding create on_attach
attach-Step = attaches true refl refl

abbrev started : Transaction
started = after attached (on_message env cfg shake attached)

start-Step : Step env cfg attached started
unfolding create on_attach on_message decode encode on_start session_of is_terminated
start-Step = handles shake true (inl refl) refl

Reach-IsValid_example : IsValid started
Reach-IsValid_example = Reach-IsValid env cfg 100 (next (next here attach-Step) start-Step)

create-IsValid : IsValid (create 100)
unfolding create
create-IsValid = ground arith

on_message-Handled_example : Handled attached true started
unfolding create on_attach on_message decode encode on_start session_of is_terminated
on_message-Handled_example =
    on_message-Handled env cfg attached started true shake
      (Reach-IsValid env cfg 100 (next here attach-Step)) (inl refl) refl

on_stop_lem_example :
    (t' : Transaction) × (on_stop env cfg 3 opened ≡ some (false, t')) × Ended opened t'
on_stop_lem_example = on_stop_lem env cfg 3 opened (omega arith) (omega arith)

start_safe_example : Admits env cfg attached shake × Opened env cfg attached shake started
unfolding create on_attach on_message decode encode on_start session_of is_terminated
start_safe_example =
    start_safe env cfg attached shake true started
      (Reach-IsValid env cfg 100 (next here attach-Step)) refl refl refl

start_opens_example :
    (t' : Transaction) × (on_start env cfg shake joined_to ≡ some (true, t'))
    × Opened env cfg joined_to shake t'
start_opens_example =
    start_opens env cfg joined_to shake joined-IsValid refl seven shake-Admits timers_given

abbrev push : Push
push = record { orn_type = 1; orn_id = 2; orn_ext_id = 0; message_id = 5; json = 123 ∷ 125 ∷ [] }

abbrev pushed : Transaction
pushed = after opened (handle_push_message env cfg push 2 50 opened)

abbrev ack : List ℕ
ack = header 31 0x13 4 1

-- An answer without a sequence number.
abbrev bad_ack : List ℕ
bad_ack = header 31 0x13 4 0

on_message_faults_example :
    (on_message env cfg bad_ack opened ≡ none) ↔ Fault env cfg opened bad_ack
on_message_faults_example = on_message_faults env cfg opened bad_ack (inr refl)
