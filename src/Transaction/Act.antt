-- ===== src/Transaction/Act.antt =====
-- The state of a transaction, what it asks of the rest of the program, and code that does both.
use g_max_linked.Base.{
  ℕ, List, [], ◌∷◌, Option, none, some, Bool, true, false, ◌||◌, if◌then◌else◌, ◌==◌,
}

-- `ETransactionStatus`.
pub data Status : Type 0 where
  free connected ready over_status : Status

abbrev pub status_code : Status → ℕ
status_code free = 0
status_code connected = 1
status_code ready = 2
status_code over_status = 3

-- `ETransactionExitReason`.
pub data ExitReason : Type 0 where
  wrong_status client_too_old time_out unknown_message no_the_session_found same_session_id
        connection_broken connection_error cannot_recv_data no_destination_found no_more_timer
        no_more_queue_space :
      ExitReason

abbrev pub reason_code : ExitReason → ℕ
reason_code wrong_status = 1
reason_code client_too_old = 2
reason_code time_out = 3
reason_code unknown_message = 4
reason_code no_the_session_found = 5
reason_code same_session_id = 6
reason_code connection_broken = 7
reason_code connection_error = 8
reason_code cannot_recv_data = 9
reason_code no_destination_found = 10
reason_code no_more_timer = 11
reason_code no_more_queue_space = 12

-- A call that a transaction makes: of the transaction manager (`setTimer`, `killTimer`,
-- `registerTransaction`, `unregisterTransaction`), of its node (`send`), of its group
-- (`putMessage`), of the database (`verifyHandshake`; `sendMessage`, whose message id comes back
-- through a reference) and of the clock.
pub data Call : Type 0 where
  set_timer : ℕ → ℕ → ℕ → Call
  kill_timer : ℕ → Call
  register : List ℕ → ℕ → Call
  unregister : List ℕ → Call
  node_send : List ℕ → Call
  put_message : List ℕ → Call
  verify_handshake : List ℕ → Call
  send_message : List ℕ → Call
  message_id : List ℕ → Call
  now : Call

-- What the rest of the program answers, given all the calls before, the last first.
abbrev pub Answers : Type 0
Answers = List Call → Call → ℕ

-- The settings of Config.h that transactions read.
pub record Settings : Type 0 where
  pub heartbeat_interval : ℕ
  pub protocol_version : ℕ
  pub base_build : ℕ

-- `self` is the address of the transaction, `timers` is `_mapSeq2Timer`, and `calls` is what it has
-- asked so far, the last first.
pub record Transaction : Type 0 where
  pub self : ℕ
  pub status : Status
  pub build : ℕ
  pub last_update : ℕ
  pub session_id : List ℕ
  pub id : ℕ
  pub keep_live_timer_id : ℕ
  pub heartbeat : Bool
  pub seq_counter : ℕ
  pub timers : List (ℕ × ℕ)
  pub calls : List Call

-- Code on a transaction; `none` is a fault.
abbrev pub Act : Type 0 → Type 0
Act A = Transaction → Option (A × Transaction)

infixl 5 ◌>>=◌ ◌>>◌
abbrev pub ◌>>=◌ : {A B : Type 0} → Act A → (A → Act B) → Act B
◌>>=◌ m f t = elim (m t) [ none ↦ none | some (a, t') ↦ f a t' ]

abbrev pub ◌>>◌ : {B : Type 0} → Act (Unit {0}) → Act B → Act B
m >> k = m >>= λ _. k

abbrev pub pure : {A : Type 0} → A → Act A
pure a t = some (a, t)

abbrev pub get : Act Transaction
get t = some (t, t)

abbrev pub put : Transaction → Act (Unit {0})
put t' t = some (tt, t')

abbrev pub assert_that : Bool → Act (Unit {0})
assert_that true t = some (tt, t)
assert_that false t = none

abbrev pub ask : Answers → Call → Act ℕ
ask answers c t = some (answers t.calls c, record t { calls = c ∷ t.calls })

abbrev pub tell : Answers → Call → Act (Unit {0})
tell answers c t = some (tt, record t { calls = c ∷ t.calls })

-- `_sessionId[0]`, and the string that it begins.
abbrev pub first : List ℕ → ℕ
first [] = 0
first (c ∷ cs) = c

unfoldable pub c_string : List ℕ → List ℕ
c_string [] = []
c_string (c ∷ cs) = let rest = c_string cs in if c == 0 then [] else c ∷ rest

-- Whether the string that an array begins ends in it; where it does not, a read goes on past the array.
unfoldable pub is_terminated : List ℕ → Bool
is_terminated [] = false
is_terminated (c ∷ cs) = c == 0 || is_terminated cs

-- `std::map` from sequence numbers to timers, in the order of the keys.
unfoldable pub find : ℕ → List (ℕ × ℕ) → Option ℕ
find k [] = none
find k ((j, v) ∷ m) = if j == k then some v else find k m

unfoldable pub erase : ℕ → List (ℕ × ℕ) → List (ℕ × ℕ)
erase k [] = []
erase k ((j, v) ∷ m) = if j == k then m else (j, v) ∷ erase k m
