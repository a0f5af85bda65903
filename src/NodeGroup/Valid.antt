-- ===== src/NodeGroup/Valid.antt =====
-- What a round of the group's thread leaves of the transactions.
use g_max_linked.Base.{
  ℕ, ◌≡◌, refl, ap, subst, Bool, true, false, not, ◌&&◌, ◌||◌, if_elim, Option, none, some, [], ◌∷◌,
  ◌++◌, ◌==◌, if◌then◌else◌, ◌>>=◌, bind-some, assert_that-some, length, arith,
}
use g_max_linked.Message.{decode}
use g_max_linked.MessageQueue.{nothing, mismatch, message, Fetched, Fetch, fetch}
use g_max_linked.Config.{Redis, Msg}
use g_max_linked.Transaction.Act.{ready, Transaction, Answers, Settings}
use g_max_linked.Transaction.Handlers.{is_connected, is_ready, is_over}
use g_max_linked.Transaction.Messages.{on_message}
use g_max_linked.Transaction.Lifecycle.{IsLive, IsValid, on_message-Handled}
use g_max_linked.Database.Run.{Outside}
use g_max_linked.Database.Check.{Session, check_messages}
use g_max_linked.Database.Progress.{check_messages-IsValid}
use g_max_linked.NodeGroup.{rolling_node}
use g_max_linked.NodeGroup.Dispatch.{Group, set_transaction, finish, hand_over, rolling_queue}
use g_max_linked.NodeGroup.Working.{Worker, on_check, check_node, rolling_check, working}

-- Each transaction that there is, wherever its address, is valid.
abbrev pub AllValid : Group → Type 0
AllValid g = (a : ℕ) → IsValid (g.transactions a)

module _ (out : Outside) (redis : Redis) (msg : Msg) (depth : ℕ) (env : Answers)
    (cfg : Settings) where
  set_transaction-AllValid :
      (g : Group) (a : ℕ) (t : Transaction)
      → AllValid g
      → IsValid t
      → (b : ℕ) → IsValid (set_transaction g.transactions a t b)
  set_transaction-AllValid g a t v h b = if_elim IsValid (b == a) t (g.transactions b) h (v b)

  group_or : Group → Option (Bool × Group) → Group
  group_or g none = g
  group_or g (some (b, g')) = g'

  finish-AllValid :
      (g g' : Group) (a : ℕ) (answer b : Bool) (t : Transaction)
      → AllValid g
      → IsValid t
      → finish env cfg g a answer t ≡ some (b, g')
      → AllValid g'
  unfolding finish group_or
  finish-AllValid g g' a true b t v h e =
      subst (λ (x : Group). AllValid x) (ap (group_or g) e) (set_transaction-AllValid g a t v h)
  finish-AllValid g g' a false b t v h e =
      let after : Group = record g {
        transactions = set_transaction g.transactions a t;
        recycled = g.recycled ++ a ∷ [];
      } in
      let f = assert_that-some (is_over t.status) (some (true, after)) (b, g') e in
      subst (λ (x : Group). AllValid x) (ap (group_or g) f.1) (set_transaction-AllValid g a t v h)

  hand_over-AllValid :
      (g g' : Group) (b : Bool) → AllValid g → hand_over env cfg g ≡ some (b, g') → AllValid g'
  unfolding hand_over group_or
  hand_over-AllValid g g' b v e =
      let a : ℕ = (decode g.buffer).ext in
      let t : Transaction = g.transactions a in
      let f =
        assert_that-some (not (a == 0))
          (if is_connected t.status || is_ready t.status
            then (on_message env cfg g.buffer t >>= λ r. finish env cfg g a r.0 r.1)
            else some (true, g))
          (b, g') e in
      by_status (is_connected t.status || is_ready t.status) refl f.1
    where
      by_status :
          (c : Bool)
          → (is_connected (g.transactions (decode g.buffer).ext).status
              || is_ready (g.transactions (decode g.buffer).ext).status)
            ≡ c
          → (if c
              then (on_message env cfg g.buffer (g.transactions (decode g.buffer).ext) >>= λ r.
                  finish env cfg g (decode g.buffer).ext r.0 r.1)
              else some (true, g))
            ≡ some (b, g')
          → AllValid g'
      by_status false c f = subst (λ (x : Group). AllValid x) (ap (group_or g) f) v
      by_status true c f =
          let a : ℕ = (decode g.buffer).ext in
          let t : Transaction = g.transactions a in
          let live : IsLive t = ground (arith, c) in
          let (r, run, done) =
            bind-some (on_message env cfg g.buffer t) (λ r. finish env cfg g a r.0 r.1) (b, g') f in
          finish-AllValid g g' a r.0 b r.1 v
            (on_message-Handled env cfg t r.1 r.0 g.buffer (v a) live run).valid done

  rolling_queue-AllValid :
      (g g' : Group) (b : Bool) → AllValid g → rolling_queue env cfg g ≡ some (b, g') → AllValid g'
  unfolding rolling_queue group_or
  rolling_queue-AllValid g g' b v e =
      let (r, got, f) =
        bind-some (fetch g.queue g.buffer)
          (λ r. elim r.found [
            | nothing ↦ some (false, record g { queue = r.queue; buffer = r.buffer })
            | mismatch ↦ some (false, record g { queue = r.queue; buffer = r.buffer })
            | message ↦ hand_over env cfg (record g { queue = r.queue; buffer = r.buffer })
          ])
          (b, g') e in
      by_found r r.found f
    where
      by_found :
          (r : Fetch) (k : Fetched)
          → ◌≡◌ {A = Option (Bool × Group)}
              (elim k [
                | nothing ↦ some (false, record g { queue = r.queue; buffer = r.buffer })
                | mismatch ↦ some (false, record g { queue = r.queue; buffer = r.buffer })
                | message ↦ hand_over env cfg (record g { queue = r.queue; buffer = r.buffer })
              ])
              (some (b, g'))
          → AllValid g'
      by_found r nothing f = subst (λ (x : Group). AllValid x) (ap (group_or g) f) v
      by_found r mismatch f = subst (λ (x : Group). AllValid x) (ap (group_or g) f) v
      by_found r message f =
          hand_over-AllValid (record g { queue = r.queue; buffer = r.buffer }) g' b v f

  on_check-AllValid :
      (a : ℕ) (w w' : Worker)
      → AllValid w.group
      → (w.group.transactions a).status ≡ ready
      → on_check out redis msg depth env cfg a w ≡ some w'
      → AllValid w'.group
  unfolding on_check
  on_check-AllValid a w w' v r e =
      let start : Session = record {
        operator = w.operator;
        transaction = w.group.transactions a;
      } in
      let (p, run, f) =
        bind-some (check_messages out redis msg depth env cfg start)
          (λ p. some (record w {
            operator = p.1.operator;
            group = record w.group {
              transactions = set_transaction w.group.transactions a p.1.transaction;
            };
          }))
          w' e in
      let kept = check_messages-IsValid out redis msg depth env cfg start p.1 p.0 (v a) r run in
      subst (λ (x : Worker). AllValid x.group) (ap (worker_or w) f)
        (set_transaction-AllValid w.group a p.1.transaction v kept.0)
    where
      worker_or : Worker → Option Worker → Worker
      worker_or w none = w
      worker_or w (some w') = w'

  pair_or : Worker → Option (Bool × Worker) → Worker
  pair_or w none = w
  pair_or w (some (b, w')) = w'

  check_node-AllValid :
      (a : ℕ) (w w' : Worker) (b : Bool)
      → AllValid w.group
      → check_node out redis msg depth env cfg a w ≡ some (b, w')
      → AllValid w'.group
  unfolding check_node pair_or
  check_node-AllValid a w w' b v e = by_status (is_ready (w.group.transactions a).status) refl e
    where
      by_status :
          (c : Bool)
          → is_ready (w.group.transactions a).status ≡ c
          → ◌≡◌ {A = Option (Bool × Worker)}
              (if c
                then (on_check out redis msg depth env cfg a w >>= λ w'. some (true, w'))
                else some (true, w))
              (some (b, w'))
          → AllValid w'.group
      by_status false c f = subst (λ (x : Worker). AllValid x.group) (ap (pair_or w) f) v
      by_status true c f =
          let (u, run, g) =
            bind-some (on_check out redis msg depth env cfg a w) (λ w'. some (true, w')) (b, w')
              f in
          subst (λ (x : Worker). AllValid x.group) (ap (pair_or w) g)
            (on_check-AllValid a w u v (ground (arith, c)) run)

  rolling_check-AllValid :
      (w w' : Worker) (b : Bool)
      → AllValid w.group
      → rolling_check out redis msg depth env cfg w ≡ some (b, w')
      → AllValid w'.group
  unfolding rolling_check pair_or
  rolling_check-AllValid w w' b v e = by_size (length w.nodes.container == 0) e
    where
      by_size :
          (c : Bool)
          → ◌≡◌ {A = Option (Bool × Worker)}
              (if c
                then some (false, w)
                else (rolling_node w.nodes >>= λ r.
                    check_node out redis msg depth env cfg r.0 (record w { nodes = r.1 })))
              (some (b, w'))
          → AllValid w'.group
      by_size true f = subst (λ (x : Worker). AllValid x.group) (ap (pair_or w) f) v
      by_size false f =
          let (r, run, g) =
            bind-some (rolling_node w.nodes)
              (λ r. check_node out redis msg depth env cfg r.0 (record w { nodes = r.1 })) (b, w')
              f in
          check_node-AllValid r.0 (record w { nodes = r.1 }) w' b v g

  -- A round of the group's thread that returns leaves every transaction valid if all were valid before,
  -- whatever stands in the queue, a message that came to its end or not, and whatever the database
  -- answers for the node whose turn it is.
  pub working-AllValid :
      (w w' : Worker) (sleeps : Bool)
      → AllValid w.group
      → working out redis msg depth env cfg w ≡ some (sleeps, w')
      → AllValid w'.group
  unfolding working pair_or
  working-AllValid w w' sleeps v e =
      let (q, took, f) =
        bind-some (rolling_queue env cfg w.group)
          (λ q. rolling_check out redis msg depth env cfg (record w { group = q.1 }) >>= λ n.
            some (not q.0 && not n.0, n.1))
          (sleeps, w') e in
      let (n, checked, g) =
        bind-some (rolling_check out redis msg depth env cfg (record w { group = q.1 }))
          (λ n. some (not q.0 && not n.0, n.1)) (sleeps, w') f in
      subst (λ (x : Worker). AllValid x.group) (ap (pair_or w) g)
        (rolling_check-AllValid (record w { group = q.1 }) n.1 n.0
          (rolling_queue-AllValid w.group q.1 q.0 v took) checked)
