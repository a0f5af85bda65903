-- ===== src/Database/Operator.antt =====
-- The connection of `CRedisOperator`, its error handler, and the check of a session.
use g_max_linked.Base.{
  ℕ, zero, suc, Bool, true, false, not, none, some, List, ◌∷◌, if◌then◌else◌, ◌==◌,
}
use g_max_linked.ConfReader.{strtol}
use g_max_linked.Config.{Redis}
use g_max_linked.Transaction.Act.{first, c_string}
use g_max_linked.Database.Run.{
  connect_to, auth, select, zscore_session, Reply, no_reply, failed, nil, status, integer, string,
  array, Connection, no_memory, refused, open_connection, Outside, Operator, Code, ◌>>=◌, ◌>>◌,
  pure, get, fault, assert_that, command,
}

-- `_errorHandler`, where `reconnect` is the call of `connect`. The replies' memory is not modelled.
unfoldable pub after_reply : Code Operator Bool → Reply → Code Operator Bool
after_reply reconnect no_reply = reconnect >>= λ _. pure false
after_reply reconnect failed = pure false
after_reply reconnect nil = pure true
after_reply reconnect status = pure true
after_reply reconnect (integer n) = pure true
after_reply reconnect (string s) = pure true
after_reply reconnect (array es) = pure true

unfoldable pub error_handler : Code Operator Bool → Reply → Code Operator Bool
unfolding after_reply
error_handler reconnect reply = do
  s ← get
  if not s.context then pure false else after_reply reconnect reply

module _ (out : Outside) (cfg : Redis) where
  -- The commands that follow an open connection.
  unfoldable pub log_in : Code Operator Bool → Code Operator Bool
  unfolding error_handler
  log_in reconnect = do
    r ← command out (auth cfg.auth)
    ok ← error_handler reconnect r
    if not ok then pure false else (do r' ← command out (select cfg.db); error_handler reconnect r')

  unfoldable pub after_connect : Code Operator Bool → Connection → Code Operator Bool
  unfolding log_in
  after_connect reconnect no_memory s = some (false, record s { context = false })
  after_connect reconnect refused s = some (false, record s { context = false })
  after_connect reconnect open_connection s = log_in reconnect (record s { context = true })

  -- `connect` calls itself through the error handler, at most `depth` times on this stack.
  unfoldable pub connect : ℕ → Code Operator Bool
  unfolding after_connect
  connect zero s = none
  connect (suc depth) s =
      after_connect (connect depth) (out.connects s.log)
        (record s { log = connect_to cfg.host cfg.port cfg.timeout ∷ s.log })

  abbrev pub disconnect : Operator → Operator
  disconnect s = record s { context = false }

  -- What the reply for a session says: 0 without one. Another type of reply fails an `assert`.
  unfoldable pub session_score : Reply → Code Operator ℕ
  session_score nil = pure 0
  session_score (string s) = pure (strtol s)
  session_score no_reply = fault
  session_score failed = fault
  session_score status = fault
  session_score (integer n) = fault
  session_score (array es) = fault

  unfoldable pub verify_handshake : ℕ → List ℕ → Code Operator ℕ
  unfolding error_handler connect session_score
  verify_handshake depth session_id = do
    assert_that (not (first session_id == 0))
    s ← get
    assert_that s.context
    r ← command out (zscore_session (c_string session_id))
    ok ← error_handler (connect depth) r
    if not ok then pure 0 else session_score r
