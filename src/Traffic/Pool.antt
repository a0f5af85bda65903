-- ===== src/Traffic/Pool.antt =====
-- The pool of nodes, in every history of the traffic manager.
use g_max_linked.Base.{
  ℕ, suc, ◌+◌, ◌<◌, ◌≡◌, refl, subst, ◌∙◌, inl, inr, ◌⊎◌, Bool, true, false, Bool-cases, bind-some,
  Option, some, List, [], ◌∷◌, ◌++◌, arith, ◌==◌, if◌then◌else◌,
}
use g_max_linked.Resource.{Resource, is_unit, allocate, reclaim}
use g_max_linked.Transaction.Act.{free, connected}
use g_max_linked.Transaction.Handlers.{is_free}
use g_max_linked.Traffic.{
  Traffic, Client, set_node, recycle_node, add_node, add_nodes, allocate_group, del_node, del_nodes,
}

abbrev pub copies : ℕ → List ℕ → ℕ
copies n [] = 0
copies n (x ∷ xs) = if x == n then suc (copies n xs) else copies n xs

copies-append : (n : ℕ) (xs ys : List ℕ) → copies n (xs ++ ys) ≡ copies n xs + copies n ys
copies-append n [] ys = omega arith
copies-append n (x ∷ xs) ys = ground (arith, copies-append n xs ys)

-- A node of the pool is free once if its transaction is free, and otherwise not at all.
pub record IsPool (units : List ℕ) (t : Traffic) : Type 0 where
  pub group : t.resource.units ≡ units
  pub shares :
      (n : ℕ)
      → is_unit n t.resource.units ≡ true
      → copies n t.resource.free_units ≡ (if is_free (t.nodes n).status then 1 else 0)
  pub known : (n : ℕ) → 0 < copies n t.resource.free_units → is_unit n t.resource.units ≡ true

-- What `_delNode` does: nothing, or it gives the node back.
abbrev pub deleted : ℕ → Traffic → Traffic
deleted node t = record t {
  nodes = set_node t.nodes node (record { fd = 0; group = 0; status = free });
  resource = (reclaim node t.resource).1;
}

pub del_node-cases :
    (node : ℕ) (t t' : Traffic)
    → del_node node t ≡ some t'
    → (t ≡ t') ⊎ ((is_free (t.nodes node).status ≡ false) × (deleted node t ≡ t'))
unfolding del_node
del_node-cases node t t' e = elim (Bool-cases (is_free (t.nodes node).status)) [
  | inl f ↦ inl (ground arith)
  | inr b ↦ elim (Bool-cases ((t.nodes node).fd == 0)) [
    | inl f ↦ inl (ground arith)
    | inr o ↦ inr (b, ground arith)
  ]
]

pub reclaim-copies :
    (node n : ℕ) (r : Resource)
    → copies n (reclaim node r).1.free_units
      ≡ copies n r.free_units + (if is_unit node r.units then (if node == n then 1 else 0) else 0)
unfolding reclaim
reclaim-copies node n r = ground (arith, copies-append n r.free_units (node ∷ []))

reclaim-units : (node : ℕ) (r : Resource) → (reclaim node r).1.units ≡ r.units
unfolding reclaim
reclaim-units node r = ground arith

deleted-IsPool :
    {units : List ℕ} (node : ℕ) (t : Traffic)
    → is_free (t.nodes node).status ≡ false
    → IsPool units t
    → IsPool units (deleted node t)
deleted-IsPool node t b p = record {
  group = reclaim-units node t.resource ∙ p.group;
  shares = λ n u.
      let v = rw (reclaim-units node t.resource) at u in
      reclaim-copies node n t.resource ∙ ground (arith, p.shares n v);
  known = λ n u.
      ground (arith, p.known n, reclaim-copies node n t.resource, reclaim-units node t.resource);
}

del_node-IsPool :
    {units : List ℕ} (node : ℕ) (t t' : Traffic)
    → del_node node t ≡ some t'
    → IsPool units t
    → IsPool units t'
del_node-IsPool node t t' e p = elim (del_node-cases node t t' e) [
  | inl same ↦ subst (IsPool _) same p
  | inr (b, d) ↦ subst (IsPool _) d (deleted-IsPool node t b p)
]

-- The queue does not count.
requeued :
    {units : List ℕ} (t : Traffic) (queue : List ℕ)
    → IsPool units t
    → IsPool units (record t { node_queue = queue })
requeued t queue p = record { group = p.group; shares = p.shares; known = p.known }

pub del_nodes-IsPool :
    {units : List ℕ} (queue : List ℕ) (t t' : Traffic)
    → del_nodes queue t ≡ some t'
    → IsPool units t
    → IsPool units t'
unfolding del_nodes
del_nodes-IsPool [] t t' e p = subst (IsPool _) (ground arith) (requeued t [] p)
del_nodes-IsPool (node ∷ queue) t t' e p =
    let (t1, d, more) = bind-some (del_node node t) (λ t1. del_nodes queue t1) t' e in
    del_nodes-IsPool queue t1 t' more (del_node-IsPool node t t1 d p)

pub recycle_node-IsPool :
    {units : List ℕ} (node : ℕ) (t t' : Traffic)
    → recycle_node node t ≡ some t'
    → IsPool units t
    → IsPool units t'
unfolding recycle_node
recycle_node-IsPool node t t' e p =
    subst (IsPool _) (ground arith) (requeued t (t.node_queue ++ node ∷ []) p)

-- A client that `_addNodes` takes: its descriptor is set, and its transaction gets a timer.
abbrev attached : ℕ → List ℕ → Client → Traffic → Traffic
attached node rest client t =
    let (group, t') = allocate_group t in
    record t' {
      resource = record t.resource { free_units = rest };
      nodes = set_node t.nodes node (record { fd = client.fd; group = group; status = connected });
    }

pub List-cases : (l : List ℕ) → (l ≡ []) ⊎ ((x : ℕ) × (xs : List ℕ) × (l ≡ x ∷ xs))
List-cases [] = inl refl
List-cases (x ∷ xs) = inr (x, xs, refl)

add_node-cases :
    (client : Client) (t t' : Traffic) (goes : Bool)
    → client.has_timer ≡ true
    → add_node client t ≡ some (goes, t')
    → (t ≡ t')
      ⊎ ((node : ℕ) × (rest : List ℕ) × (t.resource.free_units ≡ node ∷ rest)
          × (attached node rest client t ≡ t'))
unfolding add_node allocate allocate_group
add_node-cases client t t' goes h e = elim (List-cases t.resource.free_units) [
  | inl f ↦ inl (ground arith)
  | inr (node, rest, f) ↦ inr (node, rest, f, ground arith)
]

attached-IsPool :
    {units : List ℕ} (node : ℕ) (rest : List ℕ) (client : Client) (t : Traffic)
    → t.resource.free_units ≡ node ∷ rest
    → IsPool units t
    → IsPool units (attached node rest client t)
unfolding allocate_group
attached-IsPool node rest client t f p = record {
  group = p.group;
  shares = λ n u. ground (arith, p.shares n u, p.shares node, p.known node, split n, split node);
  known = λ n u. ground (arith, p.known n, split n);
}
  where
    split :
        (n : ℕ)
        → copies n t.resource.free_units
          ≡ (if node == n then suc (copies n rest) else copies n rest)
    split n = rw f refl

-- The clients of one round all get their timers.
abbrev pub HaveTimers : List Client → Type 0
HaveTimers [] = Unit {0}
HaveTimers (client ∷ clients) = (client.has_timer ≡ true) × HaveTimers clients

add_node-IsPool :
    {units : List ℕ} (client : Client) (t t' : Traffic) (goes : Bool)
    → client.has_timer ≡ true
    → add_node client t ≡ some (goes, t')
    → IsPool units t
    → IsPool units t'
add_node-IsPool client t t' goes h e p = elim (add_node-cases client t t' goes h e) [
  | inl same ↦ subst (IsPool _) same p
  | inr (node, rest, f, d) ↦ subst (IsPool _) d (attached-IsPool node rest client t f p)
]

pub add_nodes-IsPool :
    {units : List ℕ} (clients : List Client) (t t' : Traffic)
    → HaveTimers clients
    → add_nodes clients t ≡ some t'
    → IsPool units t
    → IsPool units t'
unfolding add_nodes
add_nodes-IsPool {units} [] t t' h e p = subst (IsPool _) (ground arith) p
add_nodes-IsPool {units} (client ∷ clients) t t' h e p =
    let ((goes, t1), d, more) = bind-some (add_node client t) _ t' e in
    goes_on goes t1 more (add_node-IsPool client t t1 goes h.0 d p)
      (λ x q. add_nodes-IsPool clients t1 t' h.1 x q)
  where
    goes_on :
        (goes : Bool) (t1 : Traffic)
        → elim goes as (λ _. Option Traffic) [ true ↦ add_nodes clients t1 | false ↦ some t1 ]
          ≡ some t'
        → IsPool units t1
        → (add_nodes clients t1 ≡ some t' → IsPool units t1 → IsPool units t')
        → IsPool units t'
    goes_on true t1 e q rest = rest e q
    goes_on false t1 e q rest = subst (IsPool _) (ground arith) q
