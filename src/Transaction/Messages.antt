-- ===== src/Transaction/Messages.antt =====
-- The messages that a transaction handles, and `onMessage`, which tells them apart.
use Prim.Native.Nat.{bit_or}
use g_max_linked.Base.{
  ℕ, List, none, some, Bool, true, false, not, ◌&&◌, if◌then◌else◌, ◌==◌, leb, u32,
}
use g_max_linked.Message.{
  decode, field, mt_control, mt_account, mt_service, mt_sign_ack, mc_hand_shake, mc_heart_beat,
  mc_send_msg, mc_push_msg, mc_on_timer, mc_on_over,
}
use g_max_linked.Transaction.Act.{
  Status, free, connected, ready, over_status, status_code, wrong_status, time_out, unknown_message,
  no_destination_found, reason_code, kill_timer, send_message, message_id, now, Answers, Settings,
  Act, ◌>>=◌, ◌>>◌, pure, get, put, assert_that, ask, tell, find, erase,
}
use g_max_linked.Transaction.Pdu.{json_length, send_msg_ack, heart_beat, Push, push_message}
use g_max_linked.Transaction.Handlers.{is_ready, on_stop, over, send, on_start}

module _ (env : Answers) (cfg : Settings) where
  -- `__onHeartBeat`.
  unfoldable pub on_heart_beat : Act Bool
  on_heart_beat = do
    t ← get
    if not (is_ready t.status)
        then over env cfg wrong_status false
        else (do put (record t { heartbeat = true }); pure true)

  -- `__onSendMsg`. The message goes to the database, and the answer says whether it took it.
  unfoldable pub on_send_msg : List ℕ → Act Bool
  on_send_msg msg = do
    t ← get
    if not (is_ready t.status) then over env cfg wrong_status false else (do
      stmp ← ask env now
      done ← ask env (send_message msg)
      id ← ask env (message_id msg)
      let code = if done == 0 then reason_code no_destination_found else 0
      _ ← send env cfg (send_msg_ack msg stmp code id) false
      pure true)

  -- `__onPushMsg`, the client's answer to a pushed message.
  forget_timer : ℕ → ℕ → Act Bool
  forget_timer seq timer = do
    tell env (kill_timer timer)
    t ← get
    put (record t { timers = erase seq t.timers })
    pure true

  unfoldable pub on_push_msg : List ℕ → Act Bool
  unfolding forget_timer
  on_push_msg msg = do
    t ← get
    if not (is_ready t.status) then over env cfg wrong_status false else (do
      assert_that (not ((decode msg).seq == 0))
      elim (find (decode msg).seq t.timers) [
        | none ↦ pure true
        | some timer ↦ forget_timer (decode msg).seq timer
      ])

  -- The keep-live timer: the handshake did not come, or no heartbeat since the last time.
  keep_live : Status → Act Bool
  keep_live free = assert_that false >>= λ _. pure true
  keep_live over_status = assert_that false >>= λ _. pure true
  keep_live connected = over env cfg time_out false
  keep_live ready = do
    t ← get
    if not t.heartbeat then over env cfg time_out false else (do
      _ ← send env cfg (heart_beat cfg.protocol_version) false
      t' ← get
      put (record t' { heartbeat = false })
      pure true)

  -- `__onTimer`. The other timers wait for an answer each; their parameter is its number.
  unfoldable pub on_timer : List ℕ → Act Bool
  unfolding keep_live
  on_timer msg = do
    t ← get
    let parameter = field msg 37 8
    if t.keep_live_timer_id == field msg 29 8
        then (if not (status_code t.status == u32 parameter) then pure true else keep_live t.status)
        else (if not (is_ready t.status) then pure true else elim (find (u32 parameter) t.timers) [
          | none ↦ (assert_that false >>= λ _. pure true)
          | some timer ↦ over env cfg time_out false
        ])

  -- `onMessage`.
  unfoldable pub on_message : List ℕ → Act Bool
  on_message msg =
      let type = (decode msg).type in
      let cmd = (decode msg).cmd in
      if type == mt_account && cmd == mc_hand_shake
      then on_start env cfg msg
      else (if type == bit_or mt_control mt_sign_ack && cmd == mc_heart_beat
          then on_heart_beat
          else (if type == mt_service && cmd == mc_send_msg
              then on_send_msg msg
              else (if type == bit_or mt_service mt_sign_ack && cmd == mc_push_msg
                  then on_push_msg msg
                  else (if cmd == mc_on_timer
                      then on_timer msg
                      else (if cmd == mc_on_over
                          then on_stop env cfg (field msg 29 4)
                          else over env cfg unknown_message false)))))

  -- `handlePushMessage`. `strncpy` takes the text whatever `size` says; the code asserts its bound.
  unfoldable pub handle_push_message : Push → ℕ → ℕ → Act Bool
  handle_push_message p size timestamp = do
    stmp ← ask env now
    assert_that (leb size json_length)
    done ← send env cfg (push_message cfg.protocol_version stmp p) true
    if not done
        then pure false
        else (do t ← get; put (record t { last_update = timestamp }); pure true)
