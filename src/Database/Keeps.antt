-- ===== src/Database/Keeps.antt =====
-- Code on a session of the database that keeps what holds of the transaction.
use g_max_linked.Base.{◌≡◌, refl, ap, subst, Bool, true, false, Option, none, some, if◌then◌else◌}
use g_max_linked.Transaction.Act.{Transaction, Act}
use g_max_linked.Database.Run.{Operator, Code, ◌>>=◌, pure, fault}
use g_max_linked.Database.Check.{Session, on_operator, on_transaction}

module _ (P : Transaction → Type 0) where
  abbrev pub Keeps : {A : Type 0} → Code Session A → Type 0
  Keeps {A} m = (s s' : Session) (a : A) → m s ≡ some (a, s') → P s.transaction → P s'.transaction

  pub Keeps-bind :
      {A B : Type 0} (m : Code Session A) (k : A → Code Session B)
      → Keeps m
      → ((a : A) → Keeps (k a))
      → Keeps (m >>= k)
  Keeps-bind {A} {B} m k h g s s' b e p = by_result (m s) refl e
    where
      by_result :
          (o : Option (A × Session))
          → m s ≡ o
          → ◌≡◌ {A = Option (B × Session)}
              (elim o [ none ↦ none | some (a, t) ↦ k a t ])
              (some (b, s'))
          → P s'.transaction
      by_result none f e = absurd (cc)
      by_result (some (a, t)) f e = g a t s' b e (h s t a f p)

  pub Keeps-pure : {A : Type 0} (a : A) → Keeps (pure a)
  Keeps-pure {A} a s s' b e p = subst (λ (t : Session). P t.transaction) (ap state_or e) p
    where
      state_or : Option (A × Session) → Session
      state_or none = s
      state_or (some (x, t)) = t

  pub Keeps-if :
      {A : Type 0} (c : Bool) (m k : Code Session A)
      → Keeps m
      → Keeps k
      → Keeps (if c then m else k)
  Keeps-if true m k h g = h
  Keeps-if false m k h g = g

  pub Keeps-on_operator : {A : Type 0} (m : Code Operator A) → Keeps (on_operator m)
  Keeps-on_operator {A} m s s' a e p = by_result (m s.operator) e
    where
      by_result :
          (o : Option (A × Operator))
          → ◌≡◌ {A = Option (A × Session)}
              (elim o [ none ↦ none | some (x, t) ↦ some (x, record s { operator = t }) ])
              (some (a, s'))
          → P s'.transaction
      by_result none e = absurd (cc)
      by_result (some (x, t)) e = Keeps-pure x (record s { operator = t }) s' a e p

  pub Keeps-on_transaction :
      {A : Type 0} (m : Act A)
      → ((t t' : Transaction) (a : A) → m t ≡ some (a, t') → P t → P t')
      → Keeps (on_transaction m)
  Keeps-on_transaction {A} m h s s' a e p = by_result (m s.transaction) refl e
    where
      by_result :
          (o : Option (A × Transaction))
          → m s.transaction ≡ o
          → ◌≡◌ {A = Option (A × Session)}
              (elim o [ none ↦ none | some (x, t) ↦ some (x, record s { transaction = t }) ])
              (some (a, s'))
          → P s'.transaction
      by_result none f e = absurd (cc)
      by_result (some (x, t)) f e =
          Keeps-pure x (record s { transaction = t }) s' a e (h s.transaction t x f p)

  pub Keeps-fault : {A : Type 0} → Keeps (fault {A = A})
  Keeps-fault s s' a e p = absurd (cc)
