-- ===== src/Transaction/Session.antt =====
-- How a session opens, and how the keep-live timer ends a silent one.
use g_max_linked.Base.{
  ℕ, ◌≡◌, ◌≢◌, ap, ◌∙◌, inl, inr, Bool, true, false, Option-cases, none, some, List, ◌∷◌, arith,
  ◌≤◌,
}
use g_max_linked.Message.{field, set_ext}
use g_max_linked.Transaction.Act.{
  connected, ready, over_status, status_code, Transaction, Answers, Settings, Call, kill_timer,
  verify_handshake, register, node_send, set_timer, now, first, c_string, is_terminated,
}
use g_max_linked.Transaction.Pdu.{hand_shake_ack, set_stmp}
use g_max_linked.Transaction.Handlers.{session_of, on_start, send, over, on_stop}
use g_max_linked.Transaction.Messages.{on_timer}
use g_max_linked.Transaction.Lifecycle.{IsValid}

module _ (env : Answers) (cfg : Settings) (t : Transaction) (msg : List ℕ) where
  -- The session that the message names, and what the database and the transaction manager answer.
  abbrev name : List ℕ
  name = c_string (session_of msg)

  abbrev asked : List Call
  asked = kill_timer t.keep_live_timer_id ∷ t.calls

  abbrev user : ℕ
  user = env asked (verify_handshake name)

  abbrev registered : ℕ
  registered = env (verify_handshake name ∷ asked) (register name user)

  -- The client is new enough, the session is named and its name ends in its field, the database knows
  -- its user, and no other transaction has it.
  pub record Admits : Type 0 where
    pub new_client : cfg.base_build ≤ field msg 29 4
    pub named : first (session_of msg) ≢ 0
    pub ended : is_terminated (session_of msg) ≡ true
    pub known : user ≢ 0
    pub unique : registered ≢ 0

  pub record Opened (t' : Transaction) : Type 0 where
    pub is_ready : t'.status ≡ ready
    pub session : t'.session_id ≡ session_of msg
    pub owner : t'.id ≡ user
    pub update : t'.last_update ≡ field msg 33 8

  -- A handshake that makes a connected transaction ready was admitted: no session opens past a check.
  -- It is then the session, the user and the update time of that handshake.
  pub start_safe :
      (b : Bool) (t' : Transaction)
      → IsValid t
      → t.status ≡ connected
      → on_start env cfg msg t ≡ some (b, t')
      → t'.status ≡ ready
      → Admits × Opened t'
  unfolding on_start send over on_stop
  start_safe b t' v c e r = ground arith

  -- The manager gives a timer for a new session, with the answer to the handshake sent or not.
  abbrev TimerGiven : Type 0
  TimerGiven =
      (calls : List Call) → env calls (set_timer cfg.heartbeat_interval (status_code ready) 0) ≢ 0

  -- The calls of a handshake before it is answered, and with its answer.
  abbrev pub opening : List Call
  opening = register name user ∷ verify_handshake name ∷ asked

  abbrev answered : List Call
  answered =
      node_send (set_ext (set_stmp (hand_shake_ack msg 0) (env opening now)) 0) ∷ now ∷ opening

  start_total :
      IsValid t
      → t.status ≡ connected
      → t.keep_live_timer_id ≢ 0
      → Admits
      → env answered (set_timer cfg.heartbeat_interval (status_code ready) 0) ≢ 0
      → on_start env cfg msg t ≢ none
  unfolding on_start send over on_stop
  start_total v c k a g e = ground arith

  start_value :
      (b : Bool) (t' : Transaction)
      → t.status ≡ connected
      → Admits
      → env answered (set_timer cfg.heartbeat_interval (status_code ready) 0) ≢ 0
      → on_start env cfg msg t ≡ some (b, t')
      → (b ≡ true) × Opened t'
  unfolding on_start send over on_stop
  start_value b t' c a g e = ground arith

  -- A handshake that is admitted opens the session of a connected transaction that has its timer, if
  -- the manager gives timers: `__onStart` does not fault and answers true.
  pub start_opens :
      IsValid t
      → t.status ≡ connected
      → t.keep_live_timer_id ≢ 0
      → Admits
      → TimerGiven
      → (t' : Transaction) × (on_start env cfg msg t ≡ some (true, t')) × Opened t'
  start_opens v c k a timers = elim (Option-cases (on_start env cfg msg t)) [
    | inl e ↦ absurd (start_total v c k a (timers answered) e)
    | inr ((b, t'), e) ↦
        let (yes_, o) = start_value b t' c a (timers answered) e in
        (t', e ∙ ap (λ x. some (x, t')) yes_, o)
  ]

-- The keep-live timer of a ready transaction fires with its status as the parameter.
pub record IsKeepLive (t : Transaction) (msg : List ℕ) : Type 0 where
  pub is_ready : t.status ≡ ready
  pub same_timer : t.keep_live_timer_id ≡ field msg 29 8
  pub parameter : field msg 37 8 ≡ status_code ready

module _ (env : Answers) (cfg : Settings) (t : Transaction) (msg : List ℕ) where
  fires_total : IsKeepLive t msg → on_timer env cfg msg t ≢ none
  unfolding on_timer send over on_stop
  fires_total k e = ground arith

  module _ (b : Bool) (t' : Transaction) (k : IsKeepLive t msg)
      (e : on_timer env cfg msg t ≡ some (b, t')) where
    fires_answer : b ≡ t.heartbeat
    unfolding on_timer send over on_stop
    fires_answer = ground arith

    fires_silent : t.heartbeat ≡ false → t'.status ≡ over_status
    unfolding on_timer send over on_stop
    fires_silent h = ground arith

    fires_alive : t.heartbeat ≡ true → IsKeepLive t' msg × (t'.heartbeat ≡ false)
    unfolding on_timer send over on_stop
    fires_alive h = ground arith

  -- The keep-live timer of a ready transaction never faults when it fires. If the client has been
  -- silent since the last time, it ends the transaction and answers false.
  pub silent_ends :
      IsKeepLive t msg
      → t.heartbeat ≡ false
      → (t' : Transaction) × (on_timer env cfg msg t ≡ some (false, t')) × (t'.status ≡ over_status)
  silent_ends k h = elim (Option-cases (on_timer env cfg msg t)) [
    | inl e ↦ absurd (fires_total k e)
    | inr ((b, t'), e) ↦
        (t', e ∙ ap (λ x. some (x, t')) (fires_answer b t' k e ∙ h), fires_silent b t' k e h)
  ]

  pub alive_stays :
      IsKeepLive t msg
      → t.heartbeat ≡ true
      → (t' : Transaction) × (on_timer env cfg msg t ≡ some (true, t'))
        × IsKeepLive t' msg
        × (t'.heartbeat ≡ false)
  alive_stays k h = elim (Option-cases (on_timer env cfg msg t)) [
    | inl e ↦ absurd (fires_total k e)
    | inr ((b, t'), e) ↦
        let (k', silent) = fires_alive b t' k e h in
        (t', e ∙ ap (λ x. some (x, t')) (fires_answer b t' k e ∙ h), k', silent)
  ]
