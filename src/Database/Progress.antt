-- ===== src/Database/Progress.antt =====
-- What `checkMessages` leaves of a transaction.
use g_max_linked.Base.{ℕ, ◌≡◌, refl, Bool, some, if◌then◌else◌, arith}
use g_max_linked.Config.{Redis, Msg}
use g_max_linked.Transaction.Act.{Transaction, Answers, Settings, ready}
use g_max_linked.Transaction.Pdu.{Push}
use g_max_linked.Transaction.Handlers.{send, over, on_stop}
use g_max_linked.Transaction.Messages.{handle_push_message}
use g_max_linked.Transaction.Lifecycle.{IsValid, handle_push_message-IsValid}
use g_max_linked.Database.Run.{Outside}
use g_max_linked.Database.Check.{Session, check_messages}
use g_max_linked.Database.Pushed.{Keeps-check_messages}

-- A push leaves the session itself as it is, and the time of the last update too unless it succeeds.
pub record SameUser (t t' : Transaction) : Type 0 where
  pub same_id : t'.id ≡ t.id
  pub same_session : t'.session_id ≡ t.session_id
  pub same_self : t'.self ≡ t.self

module _ (env : Answers) (app : Settings) (p : Push) (size score : ℕ) (t t' : Transaction)
    (b : Bool) where
  handle_push_message-SameUser :
      t.status ≡ ready → handle_push_message env app p size score t ≡ some (b, t') → SameUser t t'
  unfolding handle_push_message send over on_stop
  handle_push_message-SameUser r e = ground arith

  handle_push_message-update :
      t.status ≡ ready
      → handle_push_message env app p size score t ≡ some (b, t')
      → t'.last_update ≡ (if b then score else t.last_update)
  unfolding handle_push_message send over on_stop
  handle_push_message-update r e = ground arith

SameUser-trans : {t t' t'' : Transaction} → SameUser t t' → SameUser t' t'' → SameUser t t''
SameUser-trans p q = record {
  same_id = cc (p.same_id, q.same_id);
  same_session = cc (p.same_session, q.same_session);
  same_self = cc (p.same_self, q.same_self);
}

-- Whatever the database answers, if `checkMessages` returns from a valid transaction that is ready, true
-- or false, the transaction is valid and ready, and is still that of the same user and session.
pub check_messages-IsValid :
    (out : Outside) (cfg : Redis) (msg : Msg) (depth : ℕ) (env : Answers) (app : Settings)
    (s s' : Session) (b : Bool)
    → IsValid s.transaction
    → s.transaction.status ≡ ready
    → check_messages out cfg msg depth env app s ≡ some (b, s')
    → IsValid s'.transaction
      × (s'.transaction.status ≡ ready)
      × SameUser s.transaction s'.transaction
check_messages-IsValid out cfg msg depth env app s s' b v r e =
    Keeps-check_messages (λ t. IsValid t × (t.status ≡ ready) × SameUser s.transaction t) out cfg
      msg depth env app
      (λ p size score t t' c f h.
        let k = handle_push_message-IsValid env app t t' c p size score h.0 h.1 f in
        (
          k.0,
          k.1,
          SameUser-trans h.2 (handle_push_message-SameUser env app p size score t t' c h.1 f),
        ))
      s s' b e (v, r, record { same_id = refl; same_session = refl; same_self = refl })
