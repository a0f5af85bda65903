-- ===== src/Transaction/Reach.antt =====
-- Every history of a transaction, as its node, its group and the database drive it.
use g_max_linked.Base.{
  ℕ, ◌≡◌, refl, sym, ap, subst, ◌∙◌, ◌⊎◌, inl, inr, Bool, false, some, List, [], ◌∷◌, arith,
}
use g_max_linked.Transaction.Act.{
  Status, free, connected, ready, over_status, Transaction, Answers, Settings,
}
use g_max_linked.Transaction.Pdu.{Push}
use g_max_linked.Transaction.Handlers.{on_attach, on_detach}
use g_max_linked.Transaction.Messages.{on_message, handle_push_message}
use g_max_linked.Transaction.Lifecycle.{
  IsValid, IsLive, Moves, on_message-Handled, handle_push_message-IsValid, on_attach_lem,
  on_detach_lem,
}

-- The constructor.
unfoldable pub create : ℕ → Transaction
create self = record {
  self = self;
  status = free;
  build = 0;
  last_update = 0;
  session_id = 0 ∷ 0 ∷ 0 ∷ 0 ∷ 0 ∷ 0 ∷ 0 ∷ 0 ∷ 0 ∷ 0 ∷ 0 ∷ 0 ∷ 0 ∷ 0 ∷ 0 ∷ 0 ∷ 0 ∷ [];
  id = 0;
  keep_live_timer_id = 0;
  heartbeat = false;
  seq_counter = 0;
  timers = [];
  calls = [];
}

-- The edges of the comment in CTransaction.h, and the end of a session that never got ready.
pub data Edge : Status → Status → Type 0 where
  stays : {s : Status} → Edge s s
  attached : Edge free connected
  opened : Edge connected ready
  failed : Edge connected over_status
  closed : Edge ready over_status
  freed : Edge over_status free

Edge-same : {s s' u : Status} → s ≡ u → s' ≡ u → Edge s s'
Edge-same {s} p q = subst (Edge s) (p ∙ sym q) stays

Edge-of : {s s' : Status} (u u' : Status) → Edge u u' → s ≡ u → s' ≡ u' → Edge s s'
Edge-of {s} {s'} u u' e p q = subst (λ x. Edge x s') (sym p) (subst (Edge u) (sym q) e)

Edge-moves : {s s' : Status} → (s ≡ connected) ⊎ (s ≡ ready) → Moves s s' → Edge s s'
Edge-moves l (inl p) = Edge-same refl p
Edge-moves (inl l) (inr (inl p)) = Edge-of connected over_status failed l p
Edge-moves (inr l) (inr (inl p)) = Edge-of ready over_status closed l p
Edge-moves l (inr (inr (p, q))) = Edge-of connected ready opened p q

module _ (env : Answers) (cfg : Settings) where
  -- `CNodeGroup` hands messages only to a connected or ready transaction, and lets only a ready one
  -- push; `CTrafficManager` attaches a free node and detaches one whose transaction is over.
  pub data Step (t : Transaction) : Transaction → Type 0 where
    attaches :
        {t' : Transaction} (b : Bool)
        → t.status ≡ free
        → on_attach env cfg t ≡ some (b, t')
        → Step t t'
    handles :
        {t' : Transaction} (msg : List ℕ) (b : Bool)
        → IsLive t
        → on_message env cfg msg t ≡ some (b, t')
        → Step t t'
    pushes :
        {t' : Transaction} (p : Push) (size timestamp : ℕ) (b : Bool)
        → t.status ≡ ready
        → handle_push_message env cfg p size timestamp t ≡ some (b, t')
        → Step t t'
    detaches :
        {t' : Transaction}
        → t.status ≡ over_status
        → on_detach env cfg t ≡ some (tt, t')
        → Step t t'

  pub data Reach (t : Transaction) : Transaction → Type 0 where
    here : Reach t t
    next : {u v : Transaction} → Reach t u → Step u v → Reach t v

  Step-IsValid : {t t' : Transaction} → IsValid t → Step t t' → IsValid t'
  Step-IsValid {t} v (attaches b f e) =
      let (u, e', v', _, _) = on_attach_lem env cfg t v f in subst IsValid (cc (e, e')) v'
  Step-IsValid {t} {t'} v (handles msg b l e) = (on_message-Handled env cfg t t' b msg v l e).valid
  Step-IsValid {t} {t'} v (pushes p size stamp b r e) =
      (handle_push_message-IsValid env cfg t t' b p size stamp v r e).0
  Step-IsValid {t} v (detaches o e) =
      let (e', v') = on_detach_lem env cfg t v o in subst IsValid (cc (e, e')) v'

  create-IsValid : (self : ℕ) → IsValid (create self)
  unfolding create
  create-IsValid self = ground arith

  -- In every history a transaction is valid: a free one or one that is over keeps nothing of a
  -- session and has no timer, and a ready one has a session and a user.
  pub Reach-IsValid : (self : ℕ) {t : Transaction} → Reach (create self) t → IsValid t
  Reach-IsValid self here = create-IsValid self
  Reach-IsValid self (next r s) = Step-IsValid (Reach-IsValid self r) s

  -- Every step from a valid transaction follows an edge of the diagram.
  pub Step-Edge : {t t' : Transaction} → IsValid t → Step t t' → Edge t.status t'.status
  Step-Edge {t} {t'} v (attaches b f e) =
      let (u, e', _, c, _) = on_attach_lem env cfg t v f in
      let same : u ≡ t' = cc (e, e') in
      Edge-of free connected attached f (sym (ap (λ x. x.status) same) ∙ c)
  Step-Edge {t} {t'} v (handles msg b l e) =
      Edge-moves l (on_message-Handled env cfg t t' b msg v l e).moves
  Step-Edge {t} {t'} v (pushes p size stamp b r e) =
      Edge-same r (handle_push_message-IsValid env cfg t t' b p size stamp v r e).1
  Step-Edge {t} {t'} v (detaches o e) =
      let (e', _) = on_detach_lem env cfg t v o in
      let same : record t { status = free } ≡ t' = cc (e, e') in
      Edge-of over_status free freed o (sym (ap (λ x. x.status) same))
