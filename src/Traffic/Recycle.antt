-- ===== src/Traffic/Recycle.antt =====
-- Nodes that come back, and one that does not.
use g_max_linked.Base.{
  ℕ, ◌+◌, ◌≡◌, refl, inl, inr, Bool, true, false, ◌||◌, Option-cases, none, some, List, [], ◌∷◌,
  ◌++◌, arith, ◌==◌, ==_refl, ne→not_==, if◌then◌else◌, length,
}
use g_max_linked.Resource.{allocate}
use g_max_linked.Transaction.Act.{connected}
use g_max_linked.Transaction.Handlers.{is_free}
use g_max_linked.Traffic.{Traffic, Entry, add_node, allocate_group, del_node, del_nodes}

-- The node has been recycled, or was never in use.
is_gone : ℕ → Traffic → Bool
is_gone node t = is_free (t.nodes node).status || ((t.nodes node).fd == 0)

del_node-gone : (node : ℕ) (t : Traffic) → is_gone node t ≡ true → del_node node t ≡ some t
unfolding del_node is_gone
del_node-gone node t g = rw g refl

del_node-goes : (node : ℕ) (t t' : Traffic) → del_node node t ≡ some t' → is_gone node t' ≡ true
unfolding del_node is_gone
del_node-goes node t t' e = ground arith

del_node-other :
    (node other : ℕ) (t t' : Traffic)
    → is_gone node t ≡ true
    → del_node other t ≡ some t'
    → is_gone node t' ≡ true
unfolding del_node is_gone
del_node-other node other t t' g e = ground arith

del_nodes-gone :
    (node : ℕ) (xs ys : List ℕ) (t : Traffic)
    → is_gone node t ≡ true
    → del_nodes (xs ++ node ∷ ys) t ≡ del_nodes (xs ++ ys) t
unfolding del_nodes
del_nodes-gone node [] ys t g = rw (del_node-gone node t g) refl
del_nodes-gone node (x ∷ xs) ys t g = elim (Option-cases (del_node x t)) [
  | inl e ↦ rw e refl
  | inr (t', e) ↦ rw e (del_nodes-gone node xs ys t' (del_node-other node x t t' g e))
]

-- A node that stands twice in the queue is recycled once: the second time changes nothing, whatever
-- stands between, so it is not put into the pool twice.
pub del_nodes_twice :
    (node : ℕ) (xs ys : List ℕ) (t : Traffic)
    → del_nodes (node ∷ xs ++ node ∷ ys) t ≡ del_nodes (node ∷ xs ++ ys) t
unfolding del_nodes
del_nodes_twice node xs ys t = elim (Option-cases (del_node node t)) [
  | inl e ↦ rw e refl
  | inr (t', e) ↦ rw e (del_nodes-gone node xs ys t' (del_node-goes node t t' e))
]

-- A client whose transaction gets no timer costs the pool a node: the node is no longer free, its
-- transaction is connected, and it is not in the queue of nodes to recycle. A client that is not
-- watched ends in a fault.
pub refused_lem :
    (t : Traffic) (node : ℕ) (rest : List ℕ) (fd : ℕ) (watched : Bool)
    → t.resource.free_units ≡ node ∷ rest
    → (t' : Traffic) × (add_node (record { fd = fd; has_timer = false; is_watched = watched }) t
        ≡ some (false, t'))
      × (t'.resource.free_units ≡ rest)
      × ((t'.nodes node).status ≡ connected)
      × (t'.node_queue ≡ t.node_queue)
      × (add_node (record { fd = fd; has_timer = true; is_watched = false }) t ≡ none)
unfolding add_node allocate allocate_group
refused_lem t node rest fd watched e =
    let busy = ne→not_== (length (node ∷ rest)) 0 (omega arith) in
    let group = (allocate_group t).0 in
    let entry : Entry = record { fd = fd; group = group; status = connected } in
    let left : Traffic = record t {
      resource = record t.resource { free_units = rest };
      nodes = λ other. if other == node then entry else t.nodes other;
      cur_group = group + 1;
    } in
    (left, rw (e, busy) refl, refl, rw (==_refl node) refl, refl, rw (e, busy) refl)
