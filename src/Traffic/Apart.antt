-- ===== src/Traffic/Apart.antt =====
-- What a round of the traffic manager leaves alone.
use g_max_linked.Base.{
  ℕ, ◌≡◌, refl, subst, ◌∙◌, Bool, true, false, ◌||◌, ◌⊎◌, inl, inr, bind-some, Option, some, List,
  [], ◌∷◌, arith, ◌==◌, if◌then◌else◌, length,
}
use g_max_linked.Resource.{allocate}
use g_max_linked.Transaction.Handlers.{is_free}
use g_max_linked.Traffic.{Traffic, Client, add_node, allocate_group, del_node}
use g_max_linked.Traffic.Pool.{copies, List-cases, del_node-cases, reclaim-copies}
use g_max_linked.Traffic.Working.{
  World, Event, at_listener, at_node, update, give_back, give_all, give_node, take_clients,
}

-- The node `m`, which is not free, and its socket.
pub record Apart {S : Type 0} (m : ℕ) (w w' : World S) : Type 0 where
  pub same_node : w'.node_of m ≡ w.node_of m
  pub same_socket : w'.socket_of m ≡ w.socket_of m
  pub still_busy : copies m w'.traffic.resource.free_units ≡ 0

abbrev pub IsBusy : {S : Type 0} → ℕ → World S → Type 0
IsBusy m w = copies m w.traffic.resource.free_units ≡ 0

pub Apart-trans :
    {S : Type 0} {m : ℕ} {w1 w2 w3 : World S} → Apart m w1 w2 → Apart m w2 w3 → Apart m w1 w3
Apart-trans p q = record {
  same_node = q.same_node ∙ p.same_node;
  same_socket = q.same_socket ∙ p.same_socket;
  still_busy = q.still_busy;
}

abbrev pub IsNotIn : ℕ → List ℕ → Type 0
IsNotIn m [] = Unit {0}
IsNotIn m (n ∷ ns) = ((m == n) ≡ false) × IsNotIn m ns

-- No event is one of the node.
abbrev pub IsNotAt : {S : Type 0} → ℕ → List (Event S) → Type 0
IsNotAt m [] = Unit {0}
IsNotAt m (at_listener b clients ∷ events) = IsNotAt m events
IsNotAt m (at_node n flags ∷ events) = ((m == n) ≡ false) × IsNotAt m events

pub some-inj {ℓ} : {A : Type ℓ} (a b : A) → some a ≡ some b → a ≡ b
some-inj a b e = cc

-- A place beside the one that may have changed.
pub other_place {ℓ} :
    {A : Type ℓ} (c : Bool) (f : ℕ → A) (n m : ℕ) (a : A)
    → (m == n) ≡ false
    → (if c then f else update f n a) m ≡ f m
other_place true f n m a o = refl
other_place false f n m a o = rw o refl

del_node-busy :
    (n m : ℕ) (t t' : Traffic)
    → del_node n t ≡ some t'
    → (m == n) ≡ false
    → copies m t.resource.free_units ≡ 0
    → copies m t'.resource.free_units ≡ 0
del_node-busy n m t t' e o b = elim (del_node-cases n t t' e) [
  | inl same ↦ subst (λ x. copies m x.resource.free_units ≡ 0) same b
  | inr (_, d) ↦
      subst (λ x. copies m x.resource.free_units ≡ 0) d
        (reclaim-copies n m t.resource ∙ ground arith)
]

-- The pool gives a node that is not the busy one.
add_node-busy :
    (m : ℕ) (client : Client) (t t' : Traffic) (goes : Bool)
    → add_node client t ≡ some (goes, t')
    → copies m t.resource.free_units ≡ 0
    → ((length t.resource.free_units == 0) ≡ true ⊎ (m == (allocate t.resource).0) ≡ false)
      × (copies m t'.resource.free_units ≡ 0)
unfolding add_node allocate allocate_group
add_node-busy m client t t' goes e b = elim (List-cases t.resource.free_units) [
  | inl f ↦ (inl (ground arith), ground arith)
  | inr (node, rest, f) ↦ (inr (ground arith), ground arith)
]

module _ {S : Type 0} (m : ℕ) where
  give_back-Apart :
      (n : ℕ) (w w' : World S)
      → IsBusy m w
      → (m == n) ≡ false
      → give_back n w ≡ some w'
      → Apart m w w'
  unfolding give_back
  give_back-Apart n w w' b o e =
      let (t, d, f) = bind-some (del_node n w.traffic) _ w' e in
      subst (Apart m w) (some-inj _ _ f) (record {
        same_node =
            other_place (is_free (w.traffic.nodes n).status || ((w.traffic.nodes n).fd == 0))
              w.node_of n m _ o;
        same_socket = refl;
        still_busy = del_node-busy n m w.traffic t d o b;
      })

  pub give_all-Apart :
      (queue : List ℕ) (w w' : World S)
      → IsBusy m w
      → IsNotIn m queue
      → give_all queue w ≡ some w'
      → Apart m w w'
  unfolding give_all
  give_all-Apart [] w w' b o e =
      subst (Apart m w) (some-inj _ _ e)
        (record { same_node = refl; same_socket = refl; still_busy = b })
  give_all-Apart (n ∷ queue) w w' b o e =
      let (w1, d, more) = bind-some (give_back n w) _ w' e in
      let p = give_back-Apart n w w1 b o.0 d in
      Apart-trans p (give_all-Apart queue w1 w' p.still_busy o.1 more)

  give_node-Apart :
      (client : Client) (s : S) (w : World S) (t : Traffic) (goes : Bool)
      → IsBusy m w
      → add_node client w.traffic ≡ some (goes, t)
      → Apart m w (give_node client s t w)
  unfolding give_node
  give_node-Apart client s w t goes b e =
      let (place, busy) = add_node-busy m client w.traffic t goes e b in
      elim place [
        | inl empty ↦ record {
          same_node = rw empty refl;
          same_socket = rw empty refl;
          still_busy = busy;
        }
        | inr o ↦ record {
          same_node = other_place (length w.traffic.resource.free_units == 0) w.node_of _ m _ o;
          same_socket = other_place (length w.traffic.resource.free_units == 0) w.socket_of _ m _ o;
          still_busy = busy;
        }
      ]

  pub take_clients-Apart :
      (clients : List (Client × S)) (w w' : World S)
      → IsBusy m w
      → take_clients clients w ≡ some w'
      → Apart m w w'
  unfolding take_clients
  take_clients-Apart [] w w' b e =
      subst (Apart m w) (some-inj _ _ e)
        (record { same_node = refl; same_socket = refl; still_busy = b })
  take_clients-Apart ((client, s) ∷ clients) w w' b e =
      let ((goes, t), d, more) = bind-some (add_node client w.traffic) _ w' e in
      let p = give_node-Apart client s w t goes b d in
      go goes t more p
        (λ x. Apart-trans p (take_clients-Apart clients (give_node client s t w) w' p.still_busy x))
    where
      go :
          (goes : Bool) (t : Traffic)
          → elim goes as (λ _. Option (World S)) [
            | true ↦ take_clients clients (give_node client s t w)
            | false ↦ some (give_node client s t w)
          ]
            ≡ some w'
          → Apart m w (give_node client s t w)
          → (take_clients clients (give_node client s t w) ≡ some w' → Apart m w w')
          → Apart m w w'
      go true t e p rest = rest e
      go false t e p rest = subst (Apart m w) (some-inj _ _ e) p
