-- ===== src/TransactionManager.antt =====
-- `CTransactionManager` (src/transaction/CTransactionManager.cpp): the open sessions, and the message
-- that a timer sends to its transaction. A key of the map is the string in the transaction's own
-- `_sessionId`, which a transaction overwrites only after it has unregistered.
pub mod Sessions
pub mod Internal
mod Tests
use g_max_linked.Base.{
  ℕ, zero, suc, Bool, true, false, ◌&&◌, not, Option, none, some, List, [], ◌∷◌, ◌++◌, ◌==◌,
  if◌then◌else◌, ◌>>=◌, ◌>>◌, assert_that,
}
use g_max_linked.Message.{Header, encode, to_bytes, mt_control, mc_on_timer}

-- `strcmp` gives 0.
unfoldable pub same_string : List ℕ → List ℕ → Bool
same_string [] [] = true
same_string [] (d ∷ ds) = false
same_string (c ∷ cs) [] = false
same_string (c ∷ cs) (d ∷ ds) = (c == d) && same_string cs ds

-- `_transactionMap`: session ids and the addresses of their transactions.
abbrev pub TransactionMap : Type 0
TransactionMap = List (List ℕ × ℕ)

unfoldable pub find_transaction : List ℕ → TransactionMap → Option ℕ
find_transaction id [] = none
find_transaction id ((key, transaction) ∷ m) =
    if same_string key id then some transaction else find_transaction id m

unfoldable pub register_transaction : List ℕ → ℕ → TransactionMap → Bool × TransactionMap
register_transaction id transaction m = elim (find_transaction id m) [
  | some other ↦ (false, m)
  | none ↦ (true, (id, transaction) ∷ m)
]

-- `_transactionMap.erase(pos)`.
unfoldable pub erase_session : List ℕ → TransactionMap → TransactionMap
erase_session id [] = []
erase_session id ((key, transaction) ∷ m) =
    if same_string key id then m else (key, transaction) ∷ erase_session id m

-- The code asserts that the session is the transaction's own.
unfoldable pub unregister_transaction : List ℕ → ℕ → TransactionMap → Option (Bool × TransactionMap)
unregister_transaction [] transaction m = some (false, m)
unregister_transaction (c ∷ id) transaction m = elim (find_transaction (c ∷ id) m) [
  | none ↦ some (false, m)
  | some owner ↦ (assert_that (transaction == owner) >>= λ _. some (true, erase_session (c ∷ id) m))
]

-- `sizeof(Message::TPDUOnTimer)`.
abbrev size_on_timer : ℕ
size_on_timer = 45

-- The message of `__onTimer`.
unfoldable pub timer_message : ℕ → ℕ → ℕ → ℕ → ℕ → List ℕ
timer_message version stmp transaction timer parameter =
    encode (record {
      size = size_on_timer;
      type = mt_control;
      cmd = mc_on_timer;
      ver = version;
      lang = 1;
      seq = 0;
      stmp = stmp;
      ext = transaction;
    })
    ++ (to_bytes 8 timer ++ to_bytes 8 parameter)
