-- ===== src/Transaction/Handlers.antt =====
-- The operations of `CTransaction`, on its state and with the answers of the rest of the program.
use g_max_linked.Base.{
  ℕ, ◌+◌, List, [], ◌∷◌, some, Bool, true, false, not, ◌&&◌, if◌then◌else◌, ◌==◌, ltb, leb, length,
  u32,
}
use g_max_linked.Base.Bytes.{slice}
use g_max_linked.Message.{field, set_ext}
use g_max_linked.Transaction.Act.{
  Status, free, connected, ready, over_status, status_code, ExitReason, wrong_status,
  client_too_old, no_the_session_found, same_session_id, cannot_recv_data, no_more_timer,
  reason_code, Call, set_timer, kill_timer, register, unregister, node_send, put_message,
  verify_handshake, now, Answers, Settings, Act, ◌>>=◌, ◌>>◌, pure, get, put, assert_that, ask,
  tell, first, c_string, is_terminated,
}
use g_max_linked.Transaction.Pdu.{over_message, hand_shake_ack, set_seq, set_stmp}

abbrev pub is_free : Status → Bool
is_free free = true
is_free _ = false

abbrev pub is_connected : Status → Bool
is_connected connected = true
is_connected _ = false

abbrev pub is_ready : Status → Bool
is_ready ready = true
is_ready _ = false

abbrev pub is_over : Status → Bool
is_over over_status = true
is_over _ = false

-- The reasons that the switch of `__onStop` knows; its default asserts false.
abbrev pub stop_reason : ℕ → Bool
stop_reason r = ltb 0 r && leb r (reason_code cannot_recv_data)

abbrev pub no_session : List ℕ
no_session = 0 ∷ 0 ∷ 0 ∷ 0 ∷ 0 ∷ 0 ∷ 0 ∷ 0 ∷ 0 ∷ 0 ∷ 0 ∷ 0 ∷ 0 ∷ 0 ∷ 0 ∷ 0 ∷ 0 ∷ []

-- The bytes of `sessionId` in `TPDUHandShake`.
unfoldable pub session_of : List ℕ → List ℕ
session_of msg = slice msg 41 17

-- The calls of the loop that kills each timer of the map, the last first.
unfoldable pub kill_timers : List (ℕ × ℕ) → List Call → List Call
kill_timers [] calls = calls
kill_timers ((seq, timer) ∷ m) calls = kill_timers m (kill_timer timer ∷ calls)

-- `ub4_ seq = ++_seqCounter; if (0 == seq) seq = ++_seqCounter;`
unfoldable pub next_seq : ℕ → ℕ
next_seq counter = let seq = u32 (counter + 1) in if seq == 0 then u32 (seq + 1) else seq

-- `_mapSeq2Timer[seq] = timer`.
unfoldable pub insert_timer : ℕ → ℕ → List (ℕ × ℕ) → List (ℕ × ℕ)
insert_timer k v [] = (k, v) ∷ []
insert_timer k v ((j, w) ∷ m) =
    if k == j
    then (k, v) ∷ m
    else (if ltb k j then (k, v) ∷ (j, w) ∷ m else (j, w) ∷ insert_timer k v m)

module _ (env : Answers) (cfg : Settings) where
  kill_keep_live : Act (Unit {0})
  kill_keep_live t =
      let killed = record t {
        keep_live_timer_id = 0;
        calls = kill_timer t.keep_live_timer_id ∷ t.calls;
      } in
      some (tt, if t.keep_live_timer_id == 0 then t else killed)

  unregister_session : Act (Unit {0})
  unregister_session t =
      let left = record t {
        session_id = no_session;
        calls = unregister (c_string t.session_id) ∷ t.calls;
      } in
      some (tt, if first t.session_id == 0 then t else left)

  clear_timers : Act (Unit {0})
  clear_timers t = some (tt, record t { timers = []; calls = kill_timers t.timers t.calls })

  -- `__onStop`, for a reason of its message.
  unfoldable pub on_stop : ℕ → Act Bool
  unfolding kill_keep_live clear_timers unregister_session
  on_stop reason = do
    t ← get
    put (record t { status = over_status })
    assert_that (stop_reason reason)
    kill_keep_live
    clear_timers
    unregister_session
    t' ← get
    put (record t' { build = 0; last_update = 0; id = 0; heartbeat = false; seq_counter = 0 })
    pure false

  unfoldable pub over : ExitReason → Bool → Act Bool
  over reason use_queue = do
    stmp ← ask env now
    t ← get
    if use_queue
        then (do
          done ← ask env (put_message (over_message t.self cfg.protocol_version stmp reason))
          pure (not (done == 0)))
        else on_stop (reason_code reason)

  send_plain : List ℕ → Act Bool
  send_plain msg = do
    stmp ← ask env now
    done ← ask env (node_send (set_ext (set_stmp msg stmp) 0))
    pure (not (done == 0))

  -- The message goes out under a sequence number, and a timer waits for its answer.
  send_waiting : List ℕ → Act Bool
  send_waiting msg = do
    stmp ← ask env now
    t ← get
    let seq = next_seq t.seq_counter
    put (record t { seq_counter = seq })
    done ← ask env (node_send (set_seq (set_ext (set_stmp msg stmp) 0) seq))
    if done == 0 then pure false else (do
      timer ← ask env (set_timer cfg.heartbeat_interval seq 1)
      t' ← get
      if timer == 0
          then over no_more_timer false
          else (do put (record t' { timers = insert_timer seq timer t'.timers }); pure true))

  -- `__send`.
  unfoldable pub send : List ℕ → Bool → Act Bool
  unfolding send_plain send_waiting
  send msg wait_ack = if wait_ack then send_waiting msg else send_plain msg

  unfoldable pub on_attach : Act Bool
  on_attach = do
    t ← get
    assert_that (t.build == 0)
    assert_that (t.last_update == 0)
    assert_that (first t.session_id == 0)
    assert_that (t.id == 0)
    assert_that (is_free t.status)
    assert_that (t.keep_live_timer_id == 0)
    assert_that (not t.heartbeat)
    assert_that (t.seq_counter == 0)
    assert_that (length t.timers == 0)
    put (record t { status = connected })
    timer ← ask env (set_timer cfg.heartbeat_interval (status_code connected) 1)
    t' ← get
    put (record t' { keep_live_timer_id = timer })
    pure (not (timer == 0))

  unfoldable pub on_detach : Act (Unit {0})
  on_detach = do
    t ← get
    assert_that (first t.session_id == 0)
    assert_that (t.id == 0)
    assert_that (is_over t.status)
    assert_that (t.keep_live_timer_id == 0)
    assert_that (not t.heartbeat)
    assert_that (t.seq_counter == 0)
    assert_that (length t.timers == 0)
    put (record t { status = free })

  -- A handshake that is refused: an answer with the reason, and the end.
  unfoldable pub refuse : List ℕ → ExitReason → Act Bool
  unfolding send
  refuse msg reason = do _ ← send (hand_shake_ack msg (reason_code reason)) false; over reason false

  -- `_sessionId` and `_id` are cleared before it.
  refuse_session : List ℕ → ExitReason → Act Bool
  unfolding refuse
  refuse_session msg reason = do
    t ← get
    put (record t { session_id = no_session; id = 0 })
    refuse msg reason

  accept_session : List ℕ → Act Bool
  unfolding send
  accept_session msg = do
    t ← get
    put (record t { status = ready; last_update = field msg 33 8 })
    done ← send (hand_shake_ack msg 0) false
    if not done then pure true else (do
      timer ← ask env (set_timer cfg.heartbeat_interval (status_code ready) 0)
      t' ← get
      put (record t' { heartbeat = true; keep_live_timer_id = timer })
      if timer == 0 then over no_more_timer false else pure true)

  -- From the session id of the message on. `verifyHandshake` asserts that it is not empty, and reads it as
  -- a string, past `_sessionId` if no byte of it is 0.
  open_session : List ℕ → Act Bool
  unfolding refuse_session accept_session
  open_session msg = do
    t ← get
    put (record t { session_id = session_of msg })
    assert_that (not (first (session_of msg) == 0))
    assert_that (is_terminated (session_of msg))
    id ← ask env (verify_handshake (c_string (session_of msg)))
    t' ← get
    put (record t' { id = id })
    if id == 0 then refuse_session msg no_the_session_found else (do
      done ← ask env (register (c_string (session_of msg)) id)
      if done == 0 then refuse_session msg same_session_id else accept_session msg)

  -- `__onStart`.
  unfoldable pub on_start : List ℕ → Act Bool
  unfolding refuse open_session
  on_start msg = do
    t ← get
    if not (is_connected t.status) then over wrong_status false else (do
      assert_that (not (t.keep_live_timer_id == 0))
      tell env (kill_timer t.keep_live_timer_id)
      t' ← get
      put (record t' { keep_live_timer_id = 0 })
      if ltb (field msg 29 4) cfg.base_build then refuse msg client_too_old else open_session msg)
