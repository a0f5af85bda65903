-- ===== src/Database/Connect.antt =====
-- What `connect` and the error handler do to the connection.
use g_max_linked.Base.{
  ℕ, zero, suc, ◌≡◌, refl, sym, ap, ◌∙◌, subst, Bool, true, false, not, Option, none, some, List,
  ◌∷◌, if◌then◌else◌, arith,
}
use g_max_linked.Config.{Redis}
use g_max_linked.Database.Run.{
  Command, connect_to, auth, select, Reply, no_reply, failed, nil, status, integer, string, array,
  Connection, no_memory, refused, open_connection, Outside, Operator, Code, ◌>>=◌, pure, command,
}
use g_max_linked.Database.Operator.{after_reply, error_handler, log_in, after_connect, connect}

abbrev pub accepted : Reply → Bool
accepted no_reply = false
accepted failed = false
accepted nil = true
accepted status = true
accepted (integer n) = true
accepted (string s) = true
accepted (array es) = true

-- On a connection the handler lets a reply pass that is no error, and leaves everything as it is.
pub error_handler-accepted :
    (reconnect : Code Operator Bool) (r : Reply) (s : Operator)
    → s.context ≡ true
    → accepted r ≡ true
    → error_handler reconnect r s ≡ some (true, s)
unfolding error_handler after_reply
error_handler-accepted reconnect no_reply s h a = absurd (cc)
error_handler-accepted reconnect failed s h a = absurd (cc)
error_handler-accepted reconnect nil s h a = rw h refl
error_handler-accepted reconnect status s h a = rw h refl
error_handler-accepted reconnect (integer n) s h a = rw h refl
error_handler-accepted reconnect (string t) s h a = rw h refl
error_handler-accepted reconnect (array es) s h a = rw h refl

-- The handler answers true only on a connection, for a reply that is no error, and with no effect.
pub record Passed (r : Reply) (s s' : Operator) : Type 0 where
  pub connected : s.context ≡ true
  pub no_error : accepted r ≡ true
  pub same : s' ≡ s

pub error_handler-Passed :
    (reconnect : Code Operator Bool) (r : Reply) (s s' : Operator)
    → error_handler reconnect r s ≡ some (true, s')
    → Passed r s s'
unfolding error_handler after_reply
error_handler-Passed reconnect no_reply s s' e = ground arith
error_handler-Passed reconnect failed s s' e = ground arith
error_handler-Passed reconnect nil s s' e = ground arith
error_handler-Passed reconnect status s s' e = ground arith
error_handler-Passed reconnect (integer n) s s' e = ground arith
error_handler-Passed reconnect (string t) s s' e = ground arith
error_handler-Passed reconnect (array es) s s' e = ground arith

-- What follows a reply that the handler has let pass.
module _ {A : Type 0} (reconnect : Code Operator Bool) (r : Reply) (a : A)
    (k : Code Operator A) where
  pub checked-Passed :
      (s : Operator) (x : A) (s' : Operator)
      → (error_handler reconnect r >>= λ ok. if not ok then pure a else k) s ≡ some (x, s')
      → ¬ (x ≡ a)
      → (s.context ≡ true) × (accepted r ≡ true) × (k s ≡ some (x, s'))
  checked-Passed s x s' e n = by_result (error_handler reconnect r s) refl e
    where
      by_result :
          (o : Option (Bool × Operator))
          → error_handler reconnect r s ≡ o
          → (elim o [ none ↦ none | some (ok, t) ↦ (if not ok then pure a else k) t ])
            ≡ some (x, s')
          → (s.context ≡ true) × (accepted r ≡ true) × (k s ≡ some (x, s'))
      by_result none f e = absurd (cc)
      by_result (some (false, t)) f e = absurd (n (sym (ap first_or e)))
        where
          first_or : Option (A × Operator) → A
          first_or none = a
          first_or (some (y, t)) = y
      by_result (some (true, t)) f e =
          let p = error_handler-Passed reconnect r s t f in
          (p.connected, p.no_error, subst (λ o. k o ≡ some (x, s')) p.same e)

  pub checked-accepted :
      (s : Operator)
      → s.context ≡ true
      → accepted r ≡ true
      → (error_handler reconnect r >>= λ ok. if not ok then pure a else k) s ≡ k s
  checked-accepted s h e =
      ap
        (λ (o : Option (Bool × Operator)). elim o [
          | none ↦ none
          | some (ok, t) ↦ (if not ok then pure a else k) t
        ])
        (error_handler-accepted reconnect r s h e)

module _ (out : Outside) (cfg : Redis) where
  -- The log when both commands behind an open connection have been sent.
  abbrev pub logged_in : List Command → List Command
  logged_in log = select cfg.db ∷ auth cfg.auth ∷ connect_to cfg.host cfg.port cfg.timeout ∷ log

  abbrev pub opened : Operator → Operator
  opened s = record { context = true; log = connect_to cfg.host cfg.port cfg.timeout ∷ s.log }

  pub record LoggedIn (s s' : Operator) : Type 0 where
    pub is_open : out.connects s.log ≡ open_connection
    pub auth_accepted :
        accepted (out.replies (connect_to cfg.host cfg.port cfg.timeout ∷ s.log) (auth cfg.auth))
        ≡ true
    pub select_accepted :
        accepted (
          out.replies
            (auth cfg.auth ∷ connect_to cfg.host cfg.port cfg.timeout ∷ s.log)
            (select cfg.db))
        ≡ true
    pub result : s' ≡ record { context = true; log = logged_in s.log }

  log_in-Passed :
      (reconnect : Code Operator Bool) (s s' : Operator)
      → log_in out cfg reconnect s ≡ some (true, s')
      → (accepted (out.replies s.log (auth cfg.auth)) ≡ true)
        × (accepted (out.replies (auth cfg.auth ∷ s.log) (select cfg.db)) ≡ true)
        × (s' ≡ record s { log = select cfg.db ∷ auth cfg.auth ∷ s.log })
  unfolding log_in
  log_in-Passed reconnect s s' e =
      let p =
        checked-Passed reconnect (out.replies s.log (auth cfg.auth)) false
          (λ o.
            error_handler reconnect (out.replies o.log (select cfg.db))
              (record o { log = select cfg.db ∷ o.log }))
          (record s { log = auth cfg.auth ∷ s.log }) true s' e (λ f. absurd (cc)) in
      let q =
        error_handler-Passed reconnect (out.replies (auth cfg.auth ∷ s.log) (select cfg.db))
          (record s { log = select cfg.db ∷ auth cfg.auth ∷ s.log }) s' p.2 in
      (p.1, q.no_error, q.same)

  -- If it answers true, the last three calls were to connect, `AUTH` and `SELECT`, in this order, on a
  -- connection that was open, neither command got an error or no reply, and the connection is there.
  pub connect-LoggedIn :
      (depth : ℕ) (s s' : Operator) → connect out cfg depth s ≡ some (true, s') → LoggedIn s s'
  unfolding connect after_connect
  connect-LoggedIn zero s s' e = absurd (cc)
  connect-LoggedIn (suc depth) s s' e = by_connection (out.connects s.log) refl e
    where
      by_connection :
          (c : Connection)
          → out.connects s.log ≡ c
          → after_connect out cfg
              (connect out cfg depth)
              c
              (record s { log = connect_to cfg.host cfg.port cfg.timeout ∷ s.log })
            ≡ some (true, s')
          → LoggedIn s s'
      by_connection no_memory c e = absurd (ground arith)
      by_connection refused c e = absurd (ground arith)
      by_connection open_connection c e =
          let p = log_in-Passed (connect out cfg depth) (opened s) s' e in
          record { is_open = c; auth_accepted = p.0; select_accepted = p.1; result = p.2 }

  error_handler-drops :
      (reconnect : Code Operator Bool) (r : Reply) (s : Operator)
      → s.context ≡ true
      → r ≡ no_reply
      → reconnect s ≡ none
      → error_handler reconnect r s ≡ none
  unfolding error_handler after_reply
  error_handler-drops reconnect r s h a n =
      ap (λ (c : Bool). (if not c then pure false else after_reply reconnect r) s) h
      ∙ ap (λ (q : Reply). after_reply reconnect q s) a
      ∙ ap
          (λ (o : Option (Bool × Operator)). elim o [
            | none ↦ none
            | some (ok, t) ↦ some (false, t)
          ])
          n

  log_in-drops :
      (reconnect : Code Operator Bool) (s : Operator)
      → s.context ≡ true
      → out.replies s.log (auth cfg.auth) ≡ no_reply
      → reconnect (record s { log = auth cfg.auth ∷ s.log }) ≡ none
      → log_in out cfg reconnect s ≡ none
  unfolding log_in
  log_in-drops reconnect s h a n =
      ap
        (λ (o : Option (Bool × Operator)). elim o [
          | none ↦ none
          | some (ok, t) ↦
              (if not ok
                  then pure false
                  else (do r' ← command out (select cfg.db); error_handler reconnect r'))
                t
        ])
        (error_handler-drops reconnect (out.replies s.log (auth cfg.auth))
          (record s { log = auth cfg.auth ∷ s.log }) h a n)

  -- A server that takes every connection and drops each at `AUTH` lets `connect` call itself without
  -- end: no depth of the stack is enough.
  pub connect-drops :
      (depth : ℕ) (s : Operator)
      → ((log : List Command) → out.connects log ≡ open_connection)
      → ((log : List Command) → out.replies log (auth cfg.auth) ≡ no_reply)
      → connect out cfg depth s ≡ none
  unfolding connect after_connect
  connect-drops zero s h k = refl
  connect-drops (suc depth) s h k = rw (h s.log) (
      log_in-drops (connect out cfg depth) (opened s) refl (k (opened s).log)
        (connect-drops depth (record (opened s) { log = auth cfg.auth ∷ (opened s).log }) h k))
