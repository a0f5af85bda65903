-- ===== src/Database/Pushed.antt =====
-- What `checkMessages` leaves of a transaction.
use g_max_linked.Base.{
  ℕ, ◌≡◌, ◌-◌, Bool, true, false, not, ◌||◌, Option, none, some, List, [], ◌∷◌, if◌then◌else◌, ◌==◌,
  ltb, u32,
}
use g_max_linked.ConfReader.{strtol}
use g_max_linked.Config.{Redis, Msg}
use g_max_linked.Transaction.Act.{Transaction, Answers, Settings, c_string}
use g_max_linked.Transaction.Pdu.{Push}
use g_max_linked.Transaction.Messages.{handle_push_message}
use g_max_linked.Database.Run.{
  Command, zcount_user, zrange_user, zrange_user_after, hmget_message, Element, nil_element,
  string_element, other_element, Reply, no_reply, failed, nil, status, integer, string, array,
  Outside, Code, ◌>>=◌, ◌>>◌, pure, assert_that, command,
}
use g_max_linked.Database.Operator.{error_handler, connect}
use g_max_linked.Database.Check.{
  Session, on_operator, stored, push_stored, push_one, push_all, push_listed, push_reply, skipped,
  push_from, push_counted, push_newest, check_messages,
}
use g_max_linked.Database.Keeps.{
  Keeps, Keeps-bind, Keeps-pure, Keeps-if, Keeps-fault, Keeps-on_operator, Keeps-on_transaction,
}

module _ (P : Transaction → Type 0) (out : Outside) (cfg : Redis) (msg : Msg) (depth : ℕ)
    (env : Answers) (app : Settings)
    (pushes : (p : Push) (size score : ℕ) (t t' : Transaction) (b : Bool)
      → handle_push_message env app p size score t ≡ some (b, t')
      → P t
      → P t') where
  handled : (r : Reply) → Code Session Bool → Code Session Bool
  handled r k = on_operator (error_handler (connect out cfg depth) r) >>= λ ok.
      if not ok then pure false else k

  Keeps-handled : (r : Reply) (k : Code Session Bool) → Keeps P k → Keeps P (handled r k)
  unfolding handled
  Keeps-handled r k h =
      Keeps-bind P (on_operator (error_handler (connect out cfg depth) r))
        (λ ok. if not ok then pure false else k)
        (Keeps-on_operator P (error_handler (connect out cfg depth) r))
        (λ ok. Keeps-if P (not ok) (pure false) k (Keeps-pure P false) h)

  Keeps-push_stored :
      (score : ℕ) (o : Option (Option (Push × ℕ)))
      → Keeps P (push_stored out cfg msg depth env app score o)
  unfolding push_stored
  Keeps-push_stored score none = Keeps-fault P
  Keeps-push_stored score (some none) = Keeps-pure P true
  Keeps-push_stored score (some (some (p, size))) =
      Keeps-on_transaction P (handle_push_message env app p size score)
        (λ t t' b. pushes p size score t t' b)

  Keeps-push_one : (key score : Element) → Keeps P (push_one out cfg msg depth env app key score)
  unfolding push_one handled
  Keeps-push_one (string_element key) (string_element score) =
      Keeps-bind P (on_operator (command out (hmget_message (c_string key))))
        (λ r. handled r (push_stored out cfg msg depth env app (strtol score) (stored key r)))
        (Keeps-on_operator P (command out (hmget_message (c_string key))))
        (λ r.
          Keeps-handled r (push_stored out cfg msg depth env app (strtol score) (stored key r))
            (Keeps-push_stored (strtol score) (stored key r)))
  Keeps-push_one (string_element key) nil_element = Keeps-fault P
  Keeps-push_one (string_element key) other_element = Keeps-fault P
  Keeps-push_one nil_element score = Keeps-fault P
  Keeps-push_one other_element score = Keeps-fault P

  Keeps-push_all : (es : List Element) → Keeps P (push_all out cfg msg depth env app es)
  unfolding push_all
  Keeps-push_all [] = Keeps-pure P true
  Keeps-push_all (key ∷ []) = Keeps-pure P true
  Keeps-push_all (key ∷ score ∷ es) =
      Keeps-bind P (push_one out cfg msg depth env app key score)
        (λ on. if on then push_all out cfg msg depth env app es else pure false)
        (Keeps-push_one key score)
        (λ on.
          Keeps-if P on (push_all out cfg msg depth env app es) (pure false) (Keeps-push_all es)
            (Keeps-pure P false))

  Keeps-push_listed : (r : Reply) → Keeps P (push_listed out cfg msg depth env app r)
  unfolding push_listed
  Keeps-push_listed nil = Keeps-pure P false
  Keeps-push_listed (array es) = Keeps-push_all es
  Keeps-push_listed no_reply = Keeps-fault P
  Keeps-push_listed failed = Keeps-fault P
  Keeps-push_listed status = Keeps-fault P
  Keeps-push_listed (integer n) = Keeps-fault P
  Keeps-push_listed (string t) = Keeps-fault P

  Keeps-push_reply : (r : Reply) → Keeps P (push_reply out cfg msg depth env app r)
  unfolding push_reply handled
  Keeps-push_reply r =
      Keeps-handled r (push_listed out cfg msg depth env app r) (Keeps-push_listed r)

  Keeps-asked :
      (q : Command)
      → Keeps P (on_operator (command out q) >>= λ r. push_reply out cfg msg depth env app r)
  Keeps-asked q =
      Keeps-bind P (on_operator (command out q)) (push_reply out cfg msg depth env app)
        (Keeps-on_operator P (command out q)) Keeps-push_reply

  Keeps-push_from : (o : Option ℕ) → Keeps P (push_from out cfg msg depth env app o)
  unfolding push_from
  Keeps-push_from none = Keeps-pure P false
  Keeps-push_from (some offset) =
      λ s. Keeps-asked (zrange_user s.transaction.id offset msg.valid_number) s

  Keeps-push_counted : (r : Reply) → Keeps P (push_counted out cfg msg depth env app r)
  unfolding push_counted
  Keeps-push_counted (integer n) = Keeps-push_from (skipped out cfg msg depth env app n)
  Keeps-push_counted no_reply = Keeps-fault P
  Keeps-push_counted failed = Keeps-fault P
  Keeps-push_counted nil = Keeps-fault P
  Keeps-push_counted status = Keeps-fault P
  Keeps-push_counted (string t) = Keeps-fault P
  Keeps-push_counted (array es) = Keeps-fault P

  Keeps-push_newest : (r : Reply) → Keeps P (push_newest out cfg msg depth env app r)
  unfolding push_newest handled
  Keeps-push_newest r =
      Keeps-handled r (push_counted out cfg msg depth env app r) (Keeps-push_counted r)

  Keeps-counts :
      (q : Command)
      → Keeps P (on_operator (command out q) >>= λ r. push_newest out cfg msg depth env app r)
  Keeps-counts q =
      Keeps-bind P (on_operator (command out q)) (push_newest out cfg msg depth env app)
        (Keeps-on_operator P (command out q)) Keeps-push_newest

  Keeps-assert :
      {A : Type 0} (c : Bool) (k : Code Session A) → Keeps P k → Keeps P (assert_that c >> k)
  Keeps-assert true k h = h
  Keeps-assert false k h = Keeps-fault P

  pub Keeps-check_messages : Keeps P (check_messages out cfg msg depth env app)
  unfolding check_messages
  Keeps-check_messages s =
      let time = out.clock s.operator.log in
      let last = s.transaction.last_update in
      let newest = on_operator (command out (zcount_user s.transaction.id)) >>= λ r.
      push_newest out cfg msg depth env app r in
      let behind =
        on_operator (command out (zrange_user_after s.transaction.id last (u32 msg.valid_duration)))
        >>= λ r. push_reply out cfg msg depth env app r in
      Keeps-assert s.operator.context
        (assert_that (ltb last time)
          >> (if last == 0 || ltb msg.valid_duration (time - last) then newest else behind))
        (Keeps-assert (ltb last time)
          (if last == 0 || ltb msg.valid_duration (time - last) then newest else behind)
          (Keeps-if P (last == 0 || ltb msg.valid_duration (time - last)) newest behind
            (Keeps-counts (zcount_user s.transaction.id))
            (Keeps-asked (zrange_user_after s.transaction.id last (u32 msg.valid_duration)))))
        s
