-- ===== src/Traffic/Histories.antt =====
-- The histories of the traffic manager, and its pool of nodes in each of them.
use g_max_linked.Base.{
  ℕ, ◌<◌, ◌≡◌, refl, sym, subst, ap, ◌∙◌, true, false, some, List, [], ◌∷◌, arith, if◌then◌else◌,
}
use g_max_linked.Resource.{Resource, create, is_unit}
use g_max_linked.Transaction.Act.{Status}
use g_max_linked.Transaction.Handlers.{is_free}
use g_max_linked.Traffic.{Traffic, Client, set_node, recycle_node, add_nodes, del_nodes}
use g_max_linked.Traffic.Pool.{
  copies, IsPool, HaveTimers, del_nodes-IsPool, recycle_node-IsPool, add_nodes-IsPool,
}

-- A transaction moves on, in the thread of its group.
abbrev pub serve : ℕ → Status → Traffic → Traffic
serve node status t = record t {
  nodes = set_node t.nodes node (record (t.nodes node) { status = status });
}

-- The units are different, as `new` gives them.
abbrev pub AreOnce : List ℕ → Type 0
AreOnce units = (n : ℕ) → is_unit n units ≡ true → copies n units ≡ 1

-- The histories of a traffic manager over `units`: each step is one of its operations, or a group's
-- thread changes the status of a transaction that is not free to one that is not free either.
pub data Reach (units : List ℕ) : Traffic → Type 0 where
  starts :
      {t : Traffic}
      → create units ≡ some t.resource
      → AreOnce units
      → ((n : ℕ) → is_free (t.nodes n).status ≡ true)
      → Reach units t
  recycles :
      {t t' : Traffic} (node : ℕ) → Reach units t → recycle_node node t ≡ some t' → Reach units t'
  deletes : {t t' : Traffic} → Reach units t → del_nodes t.node_queue t ≡ some t' → Reach units t'
  accepts :
      {t t' : Traffic} (clients : List Client)
      → Reach units t
      → HaveTimers clients
      → add_nodes clients t ≡ some t'
      → Reach units t'
  serves :
      {t : Traffic} (node : ℕ) (status : Status)
      → Reach units t
      → is_free (t.nodes node).status ≡ false
      → is_free status ≡ false
      → Reach units (serve node status t)

serve-IsPool :
    {units : List ℕ} (node : ℕ) (status : Status) (t : Traffic)
    → is_free (t.nodes node).status ≡ false
    → is_free status ≡ false
    → IsPool units t
    → IsPool units (serve node status t)
serve-IsPool node status t b b' p = record {
  group = p.group;
  shares = λ n u. ground (arith, p.shares n u);
  known = p.known;
}

copies-is_unit : (n : ℕ) (units : List ℕ) → 0 < copies n units → is_unit n units ≡ true
unfolding is_unit
copies-is_unit n [] h = absurd (omega arith)
copies-is_unit n (u ∷ us) h = ground (arith, copies-is_unit n us)

create-units :
    (units : List ℕ) (r : Resource)
    → create units ≡ some r
    → (r.units ≡ units) × (r.free_units ≡ units)
unfolding create
create-units units r e = ground arith

start-IsPool :
    (units : List ℕ) (t : Traffic)
    → create units ≡ some t.resource
    → AreOnce units
    → ((n : ℕ) → is_free (t.nodes n).status ≡ true)
    → IsPool units t
start-IsPool units t c once f =
    let (u, v) = create-units units t.resource c in
    record {
      group = u;
      shares = λ n m. ap (copies n) v ∙ once n (ap (is_unit n) (sym u) ∙ m) ∙ (rw (f n) refl);
      known = λ n h. ap (is_unit n) u ∙ copies-is_unit n units (subst (λ l. 0 < copies n l) v h);
    }

Reach-IsPool : {units : List ℕ} {t : Traffic} → Reach units t → IsPool units t
Reach-IsPool {units} (starts c once f) = start-IsPool units _ c once f
Reach-IsPool (recycles node r e) = recycle_node-IsPool node _ _ e (Reach-IsPool r)
Reach-IsPool (deletes r e) = del_nodes-IsPool _ _ _ e (Reach-IsPool r)
Reach-IsPool (accepts clients r h e) = add_nodes-IsPool clients _ _ h e (Reach-IsPool r)
Reach-IsPool (serves node status r b b') = serve-IsPool node status _ b b' (Reach-IsPool r)

-- No node is lost and none is given to two clients. In every history in which each client that is taken
-- gets a timer for its transaction, whatever is put into the queue of nodes to recycle and however often,
-- each node of the pool waits for a client exactly once while its transaction is free, and not at all
-- otherwise.
pub Reach-copies :
    {units : List ℕ} {t : Traffic}
    → Reach units t
    → (n : ℕ) → is_unit n units ≡ true
    → copies n t.resource.free_units ≡ (if is_free (t.nodes n).status then 1 else 0)
Reach-copies r n u = let p = Reach-IsPool r in p.shares n (ap (is_unit n) p.group ∙ u)
