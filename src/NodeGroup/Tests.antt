-- ===== src/NodeGroup/Tests.antt =====
-- A group of three nodes.
use g_max_linked.Base.{
  ℕ, zero, suc, ◌≡◌, ◌≢◌, refl, ap, Bool, true, false, Option, none, some, List, [], ◌∷◌, ◌++◌,
  arith, length,
}
use g_max_linked.Message.{encode, decode, size_of, msg_max_length}
use g_max_linked.LoopBuffer.{LoopBuffer}
use g_max_linked.LoopBuffer.Invariant as Buffer
use g_max_linked.LoopBuffer.Invariant.{contents}
use g_max_linked.MessageQueue.Order.{IsFrame}
use g_max_linked.Transaction.Act.{ready, Transaction, Answers, Settings}
use g_max_linked.Transaction.Lifecycle as Lifecycle
use g_max_linked.NodeGroup.Dispatch.{Group, rolling_queue}
use g_max_linked.NodeGroup.Served.{Served, rolling_queue_lem}
use g_max_linked.MessageQueue.{fetch}
use g_max_linked.Config.{Redis, Msg}
use g_max_linked.Database.Run.{Outside, open_connection, integer, zcount_user}
use g_max_linked.Database.Operator.{after_reply, error_handler}
use g_max_linked.Database.Check.{skipped, push_from, push_counted, push_newest, check_messages}
use g_max_linked.NodeGroup.Working.{Worker, on_check, check_node, rolling_check, working}
use g_max_linked.NodeGroup.Valid.{AllValid, working-AllValid}
use g_max_linked.NodeGroup.{NodeGroup, node_at, rolling_node}
use g_max_linked.NodeGroup.Turns.{turns, round_lem}

abbrev group : NodeGroup
group = record { container = 16 ∷ 32 ∷ 48 ∷ []; pos = 2; is_connected = true }

round_lem_example :
    (g' : NodeGroup) × (turns 3 group ≡ some (48 ∷ 16 ∷ 32 ∷ [], g'))
    × (g'.container ≡ group.container)
round_lem_example = round_lem group (omega arith)

abbrev address : ℕ
address = 4096

abbrev heart_beat : List ℕ
heart_beat =
    encode
      (record { size = 29; type = 0x11; cmd = 2; ver = 1; lang = 1; seq = 0; stmp = 0; ext = 4096 })

abbrev zeros : ℕ → List ℕ
zeros zero = []
zeros (suc n) = 0 ∷ zeros n

length-zeros : (n : ℕ) → length (zeros n) ≡ n
length-zeros zero = refl
length-zeros (suc n) = ap suc (length-zeros n)

abbrev queue : LoopBuffer
queue = record {
  buffer = heart_beat ++ zeros 11;
  total_size = 40;
  actual_size = 40;
  used_size = 29;
  free_size = 11;
  is_padding = false;
  padding = 0;
  write_pos = 29;
  read_pos = 0;
}

abbrev env : Answers
env calls c = 1

abbrev cfg : Settings
cfg = record { heartbeat_interval = 20; protocol_version = 1; base_build = 5 }

abbrev transaction : Transaction
transaction = record {
  self = 4096;
  status = ready;
  build = 0;
  last_update = 0;
  session_id = 65 ∷ [];
  id = 9;
  keep_live_timer_id = 7;
  heartbeat = false;
  seq_counter = 0;
  timers = [];
  calls = [];
}

abbrev served : Group
served = record {
  queue = queue;
  buffer = zeros msg_max_length;
  transactions = λ a. transaction;
  recycled = [];
}

queue-IsValid : Buffer.IsValid queue
unfolding encode
queue-IsValid = ground (arith, length-zeros 11)

transaction-IsValid : Lifecycle.IsValid transaction
transaction-IsValid = ground arith

queue_holds : contents queue ≡ heart_beat ++ []
unfolding contents encode
queue_holds = refl

heart_beat-IsFrame : IsFrame heart_beat
unfolding size_of encode
heart_beat-IsFrame = ground arith

addressed : (decode heart_beat).ext ≡ address
unfolding decode encode
addressed = refl

address_nonzero : address ≢ 0
address_nonzero = omega arith

rolling_queue_lem_example : Served env cfg served 4096 heart_beat [] (rolling_queue env cfg served)
unfolding encode
rolling_queue_lem_example =
    rolling_queue_lem env cfg served heart_beat [] 4096 queue-IsValid (length-zeros msg_max_length)
      heart_beat-IsFrame (omega arith) queue_holds addressed address_nonzero transaction-IsValid

-- A thread with nothing in its queue and one node that is ready; the server has no message for it.
abbrev server : Outside
server = record {
  connects = λ log. open_connection;
  replies = λ log c. integer 0;
  clock = λ log. 1000;
}

abbrev redis : Redis
redis = record { host = []; port = 6379; timeout = 1; auth = []; db = 0 }

abbrev limits : Msg
limits = record { valid_duration = 500; valid_number = 8 }

abbrev worker : Worker
worker = record {
  group = record {
    queue = record queue { used_size = 0 };
    buffer = zeros 512;
    transactions = λ a. transaction;
    recycled = [];
  };
  nodes = record { container = 4096 ∷ []; pos = 1; is_connected = true };
  operator = record { context = true; log = [] };
}

abbrev behind : Option (Bool × Worker) → Worker
behind none = worker
behind (some (b, w)) = w

after_round : Worker
after_round = behind (working server redis limits 1 env cfg worker)

asks_test : after_round.operator.log ≡ zcount_user 9 ∷ []
unfolding after_round working rolling_queue fetch rolling_check rolling_node node_at check_node
    on_check check_messages push_newest push_counted push_from skipped error_handler after_reply
asks_test = refl

working-AllValid_example : AllValid after_round.group
unfolding after_round working rolling_queue fetch rolling_check rolling_node node_at check_node
    on_check check_messages push_newest push_counted push_from skipped error_handler after_reply
working-AllValid_example =
    working-AllValid server redis limits 1 env cfg worker after_round false
      (λ a. transaction-IsValid) refl
