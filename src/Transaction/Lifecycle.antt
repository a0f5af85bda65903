-- ===== src/Transaction/Lifecycle.antt =====
-- The life of a transaction: what holds in each status, and how the status moves.
use g_max_linked.Base.{
  ℕ, ◌≡◌, ◌≢◌, refl, ◌⊎◌, ◌↔◌, Bool, false, not, ◌&&◌, some, List, [], ◌∷◌, arith, ◌==◌, if_elim,
}
use g_max_linked.Transaction.Act.{
  Status, free, connected, ready, over_status, Transaction, Answers, Settings, Act, first,
  ExitReason, unknown_message, set_timer, status_code,
}
use Prim.Native.Nat.{bit_or}
use g_max_linked.Message.{
  decode, field, mt_control, mt_account, mt_service, mt_sign_ack, mc_hand_shake, mc_heart_beat,
  mc_send_msg, mc_push_msg, mc_on_timer, mc_on_over,
}
use g_max_linked.Transaction.Pdu.{Push}
use g_max_linked.Transaction.Handlers.{on_stop, over, send, on_start, on_attach, on_detach}
use g_max_linked.Transaction.Messages.{
  on_message, on_heart_beat, on_send_msg, on_push_msg, on_timer, handle_push_message,
}

-- Nothing is left of a session.
pub record IsClear (t : Transaction) : Type 0 where
  pub build_zero : t.build ≡ 0
  pub update_zero : t.last_update ≡ 0
  pub no_id : t.id ≡ 0
  pub no_session_id : first t.session_id ≡ 0
  pub no_heartbeat : t.heartbeat ≡ false
  pub no_seq : t.seq_counter ≡ 0
  pub no_timers : t.timers ≡ []

abbrev pub IsValid : Transaction → Type 0
IsValid t =
    (((t.status ≡ free) ⊎ (t.status ≡ over_status)) × IsClear t × (t.keep_live_timer_id ≡ 0))
    ⊎ ((t.status ≡ connected) × IsClear t)
    ⊎ ((t.status ≡ ready) × (first t.session_id ≢ 0) × (t.id ≢ 0))

-- A step leaves the status alone, ends the transaction, or makes a connected one ready. The comment of
-- CTransaction.h, FREE->CONNECTED->READY->OVER->FREE, has no CONNECTED->OVER.
abbrev pub Moves : Status → Status → Type 0
Moves s s' = (s' ≡ s) ⊎ (s' ≡ over_status) ⊎ ((s ≡ connected) × (s' ≡ ready))

abbrev pub IsLive : Transaction → Type 0
IsLive t = (t.status ≡ connected) ⊎ (t.status ≡ ready)

-- What a handler leaves behind: it answers false exactly when the transaction is over.
pub record Handled (t : Transaction) (b : Bool) (t' : Transaction) : Type 0 where
  pub valid : IsValid t'
  pub answer : (b ≡ false) ↔ (t'.status ≡ over_status)
  pub moves : Moves t.status t'.status

module _ (env : Answers) (cfg : Settings) (t t' : Transaction) (b : Bool) where
  on_stop-Handled : (reason : ℕ) → on_stop env cfg reason t ≡ some (b, t') → Handled t b t'
  unfolding on_stop
  on_stop-Handled reason e = ground arith

  over-Handled : (reason : ExitReason) → over env cfg reason false t ≡ some (b, t') → Handled t b t'
  unfolding over on_stop
  over-Handled reason e = ground arith

  on_start-Handled :
      (msg : List ℕ) → IsValid t → IsLive t → on_start env cfg msg t ≡ some (b, t') → Handled t b t'
  unfolding on_start over on_stop
  on_start-Handled msg v l e = ground arith

  on_heart_beat-Handled :
      IsValid t → IsLive t → on_heart_beat env cfg t ≡ some (b, t') → Handled t b t'
  unfolding on_heart_beat over on_stop
  on_heart_beat-Handled v l e = ground arith

  on_send_msg-Handled :
      (msg : List ℕ)
      → IsValid t
      → IsLive t
      → on_send_msg env cfg msg t ≡ some (b, t')
      → Handled t b t'
  unfolding on_send_msg over on_stop send
  on_send_msg-Handled msg v l e = ground arith

  on_push_msg-Handled :
      (msg : List ℕ)
      → IsValid t
      → IsLive t
      → on_push_msg env cfg msg t ≡ some (b, t')
      → Handled t b t'
  unfolding on_push_msg over on_stop
  on_push_msg-Handled msg v l e = ground arith

  on_timer-Handled :
      (msg : List ℕ) → IsValid t → IsLive t → on_timer env cfg msg t ≡ some (b, t') → Handled t b t'
  unfolding on_timer over on_stop send
  on_timer-Handled msg v l e = ground arith

  record Handles (m : Act Bool) : Type 0 where
    run : m t ≡ some (b, t') → Handled t b t'

  on_message-Handles : (msg : List ℕ) → IsValid t → IsLive t → Handles (on_message env cfg msg)
  unfolding on_message
  on_message-Handles msg v l =
      let type = (decode msg).type in
      let cmd = (decode msg).cmd in
      if_elim Handles (type == mt_account && cmd == mc_hand_shake) (on_start env cfg msg) _
        (record { run = on_start-Handled msg v l })
        (if_elim Handles (type == bit_or mt_control mt_sign_ack && cmd == mc_heart_beat)
          (on_heart_beat env cfg) _ (record { run = on_heart_beat-Handled v l })
          (if_elim Handles (type == mt_service && cmd == mc_send_msg) (on_send_msg env cfg msg) _
            (record { run = on_send_msg-Handled msg v l })
            (if_elim Handles (type == bit_or mt_service mt_sign_ack && cmd == mc_push_msg)
              (on_push_msg env cfg msg) _ (record { run = on_push_msg-Handled msg v l })
              (if_elim Handles (cmd == mc_on_timer) (on_timer env cfg msg) _
                (record { run = on_timer-Handled msg v l })
                (if_elim Handles (cmd == mc_on_over) (on_stop env cfg (field msg 29 4))
                  (over env cfg unknown_message false)
                  (record { run = on_stop-Handled (field msg 29 4) })
                  (record { run = over-Handled unknown_message }))))))

  -- Whatever message a live, valid transaction handles without a fault, it stays valid, it answers
  -- false exactly when it is over, and its status stays, becomes over, or goes from connected to ready.
  pub on_message-Handled :
      (msg : List ℕ)
      → IsValid t
      → IsLive t
      → on_message env cfg msg t ≡ some (b, t')
      → Handled t b t'
  on_message-Handled msg v l = (on_message-Handles msg v l).run

  pub handle_push_message-IsValid :
      (p : Push) (size timestamp : ℕ)
      → IsValid t
      → t.status ≡ ready
      → handle_push_message env cfg p size timestamp t ≡ some (b, t')
      → IsValid t' × (t'.status ≡ ready)
  unfolding handle_push_message over on_stop send
  handle_push_message-IsValid p size timestamp v r e = ground arith

-- Attaching a valid free transaction never faults. It is then connected and has the timer that the
-- manager gave, and the answer is whether there was one.
pub on_attach_lem :
    (env : Answers) (cfg : Settings) (t : Transaction)
    → IsValid t
    → t.status ≡ free
    → let timer = env t.calls (set_timer cfg.heartbeat_interval (status_code connected) 1) in
      (t' : Transaction) × (on_attach env cfg t ≡ some (not (timer == 0), t'))
      × IsValid t'
      × (t'.status ≡ connected)
      × (t'.keep_live_timer_id ≡ timer)
unfolding on_attach
on_attach_lem env cfg t v f =
    let timer = env t.calls (set_timer cfg.heartbeat_interval (status_code connected) 1) in
    (
      record t {
        status = connected;
        keep_live_timer_id = timer;
        calls = set_timer cfg.heartbeat_interval (status_code connected) 1 ∷ t.calls;
      },
      ground arith,
      ground arith,
      refl,
      refl,
    )

-- Detaching a valid transaction that is over never faults, and frees it.
pub on_detach_lem :
    (env : Answers) (cfg : Settings) (t : Transaction)
    → IsValid t
    → t.status ≡ over_status
    → (on_detach env cfg t ≡ some (tt, record t { status = free }))
      × IsValid (record t { status = free })
unfolding on_detach
on_detach_lem env cfg t v o = (ground arith, ground arith)
