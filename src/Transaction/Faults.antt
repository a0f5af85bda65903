-- ===== src/Transaction/Faults.antt =====
-- The messages on which a live transaction faults.
use Prim.Native.Nat.{bit_or}
use g_max_linked.Base.{
  ℕ, ◌≡◌, ◌≢◌, ◌<◌, ◌≤◌, refl, ◌∙◌, ◌⊎◌, ◌↔◌, Bool, true, false, ◌&&◌, none, List, ◌∷◌, arith, ◌==◌,
  if◌then◌else◌, u32,
}
use g_max_linked.Message.{
  decode, field, set_ext, mt_control, mt_account, mt_service, mt_sign_ack, mc_hand_shake,
  mc_heart_beat, mc_send_msg, mc_push_msg, mc_on_timer, mc_on_over,
}
use g_max_linked.Transaction.Act.{
  connected, ready, status_code, Transaction, Answers, Settings, Act, Call, first, is_terminated,
  unknown_message, reason_code, cannot_recv_data, set_timer, node_send, now, find,
}
use g_max_linked.Transaction.Pdu.{hand_shake_ack, set_stmp}
use g_max_linked.Transaction.Handlers.{session_of, on_stop, over, send, on_start}
use g_max_linked.Transaction.Messages.{
  on_message, on_heart_beat, on_send_msg, on_push_msg, on_timer,
}
use g_max_linked.Transaction.Lifecycle.{IsLive}
use g_max_linked.Transaction.Session.{Admits, opening}

either :
    (b : Bool) (x y : Act Bool) (t : Transaction) (F : Type 0)
    → (b ≡ true → x t ≡ none → F)
    → (b ≡ false → y t ≡ none → F)
    → (if b then x else y) t ≡ none
    → F
either true x y t F p q e = p refl e
either false x y t F p q e = q refl e

module _ (env : Answers) (cfg : Settings) (t : Transaction) (msg : List ℕ) where
  abbrev ack : Call
  ack = node_send (set_ext (set_stmp (hand_shake_ack msg 0) (env (opening env cfg t msg) now)) 0)

  -- What is wrong with a handshake: the keep-live timer of the connection is gone; the client is new
  -- enough, but names no session, or its session's name does not end in its field; or it is admitted,
  -- its node has taken the answer, and there is no timer left for the session.
  abbrev pub BadStart : Type 0
  BadStart =
      (t.keep_live_timer_id ≡ 0)
      ⊎ ((cfg.base_build ≤ field msg 29 4) × (first (session_of msg) ≡ 0))
      ⊎ ((cfg.base_build ≤ field msg 29 4) × (is_terminated (session_of msg) ≡ false))
      ⊎ (Admits env cfg t msg
          × (env (now ∷ opening env cfg t msg) ack ≢ 0)
          × (env (ack ∷ now ∷ opening env cfg t msg)
                (set_timer cfg.heartbeat_interval (status_code ready) 0)
              ≡ 0))

  -- The messages that the code asserts against.
  pub data Fault : Type 0 where
    bad_start :
        (decode msg).type ≡ mt_account
        → (decode msg).cmd ≡ mc_hand_shake
        → t.status ≡ connected
        → BadStart
        → Fault
    no_seq :
        (decode msg).type ≡ bit_or mt_service mt_sign_ack
        → (decode msg).cmd ≡ mc_push_msg
        → t.status ≡ ready
        → (decode msg).seq ≡ 0
        → Fault
    unknown_timer :
        (decode msg).cmd ≡ mc_on_timer
        → t.status ≡ ready
        → t.keep_live_timer_id ≢ field msg 29 8
        → find (u32 (field msg 37 8)) t.timers ≡ none
        → Fault
    bad_reason :
        (decode msg).cmd ≡ mc_on_over
        → (field msg 29 4 ≡ 0) ⊎ (reason_code cannot_recv_data < field msg 29 4)
        → Fault

  start_faults : on_start env cfg msg t ≡ none → (t.status ≡ connected) × BadStart
  unfolding on_start send over on_stop
  start_faults e = ground arith

  start_asserts : t.status ≡ connected → BadStart → on_start env cfg msg t ≡ none
  unfolding on_start send over on_stop
  start_asserts c b = ground arith

  heart_beat_faults : on_heart_beat env cfg t ≡ none → ⊥
  unfolding on_heart_beat over on_stop
  heart_beat_faults e = ground arith

  send_faults : on_send_msg env cfg msg t ≡ none → ⊥
  unfolding on_send_msg send over on_stop
  send_faults e = ground arith

  push_faults : on_push_msg env cfg msg t ≡ none → (t.status ≡ ready) × ((decode msg).seq ≡ 0)
  unfolding on_push_msg over on_stop
  push_faults e = ground arith

  push_asserts : t.status ≡ ready → (decode msg).seq ≡ 0 → on_push_msg env cfg msg t ≡ none
  unfolding on_push_msg
  push_asserts r e = ground arith

  timer_faults :
      IsLive t
      → on_timer env cfg msg t ≡ none
      → (t.status ≡ ready)
        × (t.keep_live_timer_id ≢ field msg 29 8)
        × (find (u32 (field msg 37 8)) t.timers ≡ none)
  unfolding on_timer send over on_stop
  timer_faults l e = ground arith

  timer_asserts :
      t.status ≡ ready
      → t.keep_live_timer_id ≢ field msg 29 8
      → find (u32 (field msg 37 8)) t.timers ≡ none
      → on_timer env cfg msg t ≡ none
  unfolding on_timer
  timer_asserts r k e = ground arith

  stop_faults :
      on_stop env cfg (field msg 29 4) t ≡ none
      → (field msg 29 4 ≡ 0) ⊎ (reason_code cannot_recv_data < field msg 29 4)
  unfolding on_stop
  stop_faults e = ground arith

  stop_asserts :
      (field msg 29 4 ≡ 0) ⊎ (reason_code cannot_recv_data < field msg 29 4)
      → on_stop env cfg (field msg 29 4) t ≡ none
  unfolding on_stop
  stop_asserts e = ground arith

  unknown_faults : over env cfg unknown_message false t ≡ none → ⊥
  unfolding over on_stop
  unknown_faults e = ground arith

  both :
      (type cmd : ℕ)
      → ((decode msg).type == type && (decode msg).cmd == cmd) ≡ true
      → ((decode msg).type ≡ type) × ((decode msg).cmd ≡ cmd)
  both type cmd e = ground arith

  faults_why : IsLive t → on_message env cfg msg t ≡ none → Fault
  unfolding on_message
  faults_why l =
      let type = (decode msg).type in
      let cmd = (decode msg).cmd in
      either (type == mt_account && cmd == mc_hand_shake) (on_start env cfg msg) _ t Fault
        (λ b e.
          let (p, q) = both mt_account mc_hand_shake b in
          let (c, w) = start_faults e in bad_start p q c w)
        (λ _.
          either (type == bit_or mt_control mt_sign_ack && cmd == mc_heart_beat)
            (on_heart_beat env cfg) _ t Fault (λ _ e. absurd (heart_beat_faults e))
            (λ _.
              either (type == mt_service && cmd == mc_send_msg) (on_send_msg env cfg msg) _ t Fault
                (λ _ e. absurd (send_faults e))
                (λ _.
                  either (type == bit_or mt_service mt_sign_ack && cmd == mc_push_msg)
                    (on_push_msg env cfg msg) _ t Fault
                    (λ b e.
                      let (p, q) = both (bit_or mt_service mt_sign_ack) mc_push_msg b in
                      let (r, z) = push_faults e in no_seq p q r z)
                    (λ _.
                      either (cmd == mc_on_timer) (on_timer env cfg msg) _ t Fault
                        (λ b e.
                          let (r, k, f) = timer_faults l e in unknown_timer (ground arith) r k f)
                        (λ _.
                          either (cmd == mc_on_over) (on_stop env cfg (field msg 29 4))
                            (over env cfg unknown_message false) t Fault
                            (λ b e. bad_reason (ground arith) (stop_faults e))
                            (λ _ e. absurd (unknown_faults e)))))))

  -- A command of its own kind decides alone.
  on_message-on_timer :
      (decode msg).cmd ≡ mc_on_timer → on_message env cfg msg t ≡ on_timer env cfg msg t
  unfolding on_message
  on_message-on_timer q = ground (arith, q)

  on_message-on_stop :
      (decode msg).cmd ≡ mc_on_over → on_message env cfg msg t ≡ on_stop env cfg (field msg 29 4) t
  unfolding on_message
  on_message-on_stop q = ground (arith, q)

  faults_so : Fault → on_message env cfg msg t ≡ none
  unfolding on_message
  faults_so (bad_start p q c b) = rw (p, q) (start_asserts c b)
  faults_so (no_seq p q r e) = rw (p, q) (push_asserts r e)
  faults_so (unknown_timer q r k f) = on_message-on_timer q ∙ timer_asserts r k f
  faults_so (bad_reason q b) = on_message-on_stop q ∙ stop_asserts b

  -- A live transaction faults by its own asserts, or by a read past its session's name, exactly on
  -- these messages, whatever the rest of the program answers: a handshake to a connected one whose
  -- keep-live timer is gone, that names no session or one that does not end in its field, or that is
  -- admitted and answered when no timer is left; the ack of a push, to a ready one, with the sequence
  -- number 0; a timer, to a ready one, that neither keeps it alive nor is in its map; and an end for
  -- the reason 0 or for one that the switch does not list. The asserts inside what it calls (its node,
  -- its group, the database and the managers) are theirs.
  pub on_message_faults : IsLive t → (on_message env cfg msg t ≡ none) ↔ Fault
  on_message_faults l = (faults_why l, faults_so)
