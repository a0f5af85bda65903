-- ===== src/TransactionManager/Tests.antt =====
-- Two sessions, and two messages of the program to itself.
use g_max_linked.Base.{◌≡◌, refl, true, some, [], ◌∷◌}
use g_max_linked.Transaction.Act.{ready, Transaction, Answers, Settings}
use g_max_linked.TransactionManager.{
  TransactionMap, same_string, find_transaction, register_transaction,
}
use g_max_linked.TransactionManager.Sessions.{IsUnique, Registered, register_lem}

abbrev sessions : TransactionMap
sessions = (65 ∷ [], 100) ∷ (65 ∷ 66 ∷ [], 200) ∷ []

sessions-IsUnique : IsUnique sessions
unfolding find_transaction same_string
sessions-IsUnique = (refl, (refl, tt))

second_owner : find_transaction (65 ∷ 66 ∷ []) sessions ≡ some 200
unfolding find_transaction same_string
second_owner = refl

register_lem_example :
    Registered (66 ∷ []) 300 sessions (register_transaction (66 ∷ []) 300 sessions)
register_lem_example = register_lem (66 ∷ []) 300 sessions sessions-IsUnique

abbrev env : Answers
env calls c = 1

abbrev cfg : Settings
cfg = record { heartbeat_interval = 20; protocol_version = 1; base_build = 5 }

abbrev transaction : Transaction
transaction = record {
  self = 100;
  status = ready;
  build = 0;
  last_update = 0;
  session_id = 65 ∷ [];
  id = 9;
  keep_live_timer_id = 7;
  heartbeat = true;
  seq_counter = 0;
  timers = [];
  calls = [];
}
