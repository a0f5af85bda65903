-- ===== src/Database/Outage.antt =====
-- What a node group's operations do when the connection to the database is lost.
use g_max_linked.Base.{
  ℕ, suc, ◌≡◌, ◌≢◌, ◌∙◌, refl, ap, Bool, true, false, not, Option, none, some, List, ◌∷◌,
  if◌then◌else◌, ne→not_==, arith,
}
use g_max_linked.Config.{Redis, Msg}
use g_max_linked.Transaction.Act.{first, c_string, Answers, Settings}
use g_max_linked.Database.Run.{
  Command, connect_to, zscore_session, Reply, no_reply, refused, Outside, Operator, Code, ◌>>=◌,
  ◌>>◌, pure, get, assert_that, command,
}
use g_max_linked.Database.Operator.{
  after_reply, error_handler, after_connect, connect, session_score, verify_handshake,
}
use g_max_linked.Database.Send.{send_message}
use g_max_linked.Database.Check.{Session, check_messages}

module _ (out : Outside) (cfg : Redis) (depth : ℕ) where
  connect-refused :
      (s : Operator)
      → out.connects s.log ≡ refused
      → connect out cfg (suc depth) s
        ≡ some (
          false,
          record { context = false; log = connect_to cfg.host cfg.port cfg.timeout ∷ s.log },
        )
  unfolding connect after_connect
  connect-refused s h = rw h refl

  error_handler-refused :
      (s : Operator)
      → s.context ≡ true
      → out.connects s.log ≡ refused
      → error_handler (connect out cfg (suc depth)) no_reply s
        ≡ some (
          false,
          record { context = false; log = connect_to cfg.host cfg.port cfg.timeout ∷ s.log },
        )
  unfolding error_handler after_reply
  error_handler-refused s c h =
      ap
        (λ (b : Bool).
          (if not b then pure false else after_reply (connect out cfg (suc depth)) no_reply) s)
        c
      ∙ ap
          (λ (o : Option (Bool × Operator)). elim o [
            | none ↦ none
            | some (ok, t) ↦ some (false, t)
          ])
          (connect-refused s h)

  -- The connection is lost while a session is looked up, and the server does not take a new one.
  unfoldable pub lost : List ℕ → Operator → Operator
  lost session_id s = record {
    context = false;
    log = connect_to cfg.host cfg.port cfg.timeout ∷ zscore_session (c_string session_id) ∷ s.log;
  }

  verify_handshake-lost :
      (session_id : List ℕ) (s : Operator)
      → first session_id ≢ 0
      → s.context ≡ true
      → out.replies s.log (zscore_session (c_string session_id)) ≡ no_reply
      → out.connects (zscore_session (c_string session_id) ∷ s.log) ≡ refused
      → verify_handshake out cfg (suc depth) session_id s ≡ some (0, lost session_id s)
  unfolding verify_handshake lost
  verify_handshake-lost session_id s n c r h =
      ap (λ (b : Bool). (assert_that (not b) >> rest) s) (ne→not_== (first session_id) 0 n)
      ∙ ap (λ (b : Bool). (assert_that b >> asks) s) c
      ∙ ap (λ (q : Reply). answered q (record s { log = q' ∷ s.log })) r
      ∙ ap
          (λ (o : Option (Bool × Operator)). elim o [
            | none ↦ none
            | some (ok, t) ↦ (if not ok then pure 0 else session_score out cfg no_reply) t
          ])
          (error_handler-refused (record s { log = q' ∷ s.log }) c h)
    where
      q' : Command
      q' = zscore_session (c_string session_id)

      answered : Reply → Code Operator ℕ
      answered q = error_handler (connect out cfg (suc depth)) q >>= λ ok.
          if not ok then pure 0 else session_score out cfg q

      asks : Code Operator ℕ
      asks = command out q' >>= answered

      rest : Code Operator ℕ
      rest = get >>= λ (o : Operator). assert_that o.context >> asks

  no_context-verify :
      (session_id : List ℕ) (s : Operator)
      → s.context ≡ false
      → verify_handshake out cfg depth session_id s ≡ none
  unfolding verify_handshake
  no_context-verify session_id s c = ground arith

  no_context-send :
      (own_id : ℕ) (msg : List ℕ) (id : ℕ) (s : Operator)
      → s.context ≡ false
      → send_message out cfg depth own_id msg id s ≡ none
  unfolding send_message
  no_context-send own_id msg id s c = ground arith

  module _ (m : Msg) (env : Answers) (app : Settings) where
    no_context-check :
        (s : Session) → s.operator.context ≡ false → check_messages out cfg m depth env app s ≡ none
    unfolding check_messages
    no_context-check s c = ground arith

    -- One lost connection ends the program. If the connection is lost while a session is looked up, and
    -- the server refuses the new one, the lookup returns 0 with no context; from then on each of
    -- `verifyHandshake`, `sendMessage` and `checkMessages`, called with anything on that operator,
    -- fails its `assert` for the context.
    pub verify_handshake-outage :
        (session_id : List ℕ) (s : Operator)
        → first session_id ≢ 0
        → s.context ≡ true
        → out.replies s.log (zscore_session (c_string session_id)) ≡ no_reply
        → out.connects (zscore_session (c_string session_id) ∷ s.log) ≡ refused
        → (verify_handshake out cfg (suc depth) session_id s ≡ some (0, lost session_id s))
          × ((other : List ℕ) → verify_handshake out cfg depth other (lost session_id s) ≡ none)
          × ((own_id : ℕ) (msg : List ℕ) (id : ℕ)
              → send_message out cfg depth own_id msg id (lost session_id s) ≡ none)
          × ((t : Session)
              → check_messages out cfg m depth env app (record t { operator = lost session_id s })
                ≡ none)
    unfolding lost
    verify_handshake-outage session_id s n c r h = (
      verify_handshake-lost session_id s n c r h,
      λ other. no_context-verify other (lost session_id s) refl,
      λ own_id msg id. no_context-send own_id msg id (lost session_id s) refl,
      λ t. no_context-check (record t { operator = lost session_id s }) refl,
    )
