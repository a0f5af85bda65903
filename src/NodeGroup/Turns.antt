-- ===== src/NodeGroup/Turns.antt =====
-- The turns of the nodes of a group.
use g_max_linked.Base.{
  ℕ, zero, suc, ◌+◌, ◌-◌, ◌≤◌, ◌<◌, ◌≡◌, refl, sym, ap, ap₂, ◌∙◌, Option, none, some, List, [], ◌∷◌,
  ◌++◌, arith, length, take, drop, take_all, append-nil, length-drop, ◌>>=◌,
}
use g_max_linked.NodeGroup.{NodeGroup, node_at, rolling_node}

-- The nodes that have their turns in a number of rounds.
unfoldable pub turns : ℕ → NodeGroup → Option (List ℕ × NodeGroup)
turns zero g = some ([], g)
turns (suc n) g = do
  (node, g') ← rolling_node g
  (nodes, g'') ← turns n g'
  some (node ∷ nodes, g'')

node_at-drop :
    (n : ℕ) (c : List ℕ)
    → n < length c
    → (node : ℕ) × (node_at n c ≡ some node) × (drop n c ≡ node ∷ drop (suc n) c)
unfolding node_at
node_at-drop n [] h = absurd (omega arith)
node_at-drop zero (x ∷ c) h = (x, refl, refl)
node_at-drop (suc n) (x ∷ c) h = node_at-drop n c (omega arith)

abbrev at : NodeGroup → ℕ → NodeGroup
at g pos = record g { pos = pos }

rolling_node-inside :
    (g : NodeGroup) (pos node : ℕ)
    → pos < length g.container
    → node_at pos g.container ≡ some node
    → rolling_node (at g pos) ≡ some (node, at g (pos + 1))
unfolding rolling_node
rolling_node-inside g pos node h e = ground (arith, e)

-- At the end of the list the turn goes back to its front.
rolling_node-end :
    (g : NodeGroup)
    → 0 < length g.container
    → rolling_node (at g (length g.container)) ≡ rolling_node (at g 0)
unfolding rolling_node
rolling_node-end g h = ground arith

turns-step :
    (g : NodeGroup) (n pos node : ℕ)
    → rolling_node (at g pos) ≡ some (node, at g (pos + 1))
    → turns (suc n) (at g pos) ≡ (turns n (at g (pos + 1)) >>= λ p. some (node ∷ p.0, p.1))
unfolding turns
turns-step g n pos node e = rw e refl

-- What follows after some nodes have had their turns.
abbrev after_nodes : List ℕ → Option (List ℕ × NodeGroup) → Option (List ℕ × NodeGroup)
after_nodes xs r = r >>= λ p. some (xs ++ p.0, p.1)

after_nodes-cons :
    (x : ℕ) (xs : List ℕ) (r : Option (List ℕ × NodeGroup))
    → (after_nodes xs r >>= λ p. some (x ∷ p.0, p.1)) ≡ after_nodes (x ∷ xs) r
after_nodes-cons x xs none = refl
after_nodes-cons x xs (some p) = refl

after_nodes-nil : (r : Option (List ℕ × NodeGroup)) → after_nodes [] r ≡ r
after_nodes-nil none = refl
after_nodes-nil (some p) = refl

turns-inside :
    (g : NodeGroup) (n k m pos : ℕ)
    → m ≡ n + k
    → pos + n ≤ length g.container
    → turns m (at g pos) ≡ after_nodes (take n (drop pos g.container)) (turns k (at g (pos + n)))
turns-inside g zero k m pos e h =
    ap₂ (λ a b. turns a (at g b)) (omega arith) (omega arith)
    ∙ sym (after_nodes-nil (turns k (at g (pos + 0))))
turns-inside g (suc n) k zero pos e h = absurd (omega arith)
turns-inside g (suc n) k (suc m) pos e h =
    let (node, here, d) = node_at-drop pos g.container (omega arith) in
    let one : pos + 1 ≡ suc pos = omega arith in
    let all : (pos + 1) + n ≡ pos + suc n = omega arith in
    turns-step g m pos node (rolling_node-inside g pos node (omega arith) here)
    ∙ ap (λ r. r >>= λ p. some (node ∷ p.0, p.1))
        (turns-inside g n k m (pos + 1) (omega arith) (omega arith))
    ∙ after_nodes-cons node (take n (drop (pos + 1) g.container)) (turns k (at g ((pos + 1) + n)))
    ∙ ap₂ (λ xs b. after_nodes xs (turns k (at g b)))
        (ap (λ j. node ∷ take n (drop j g.container)) one ∙ sym (ap (take (suc n)) d)) all

turns-end :
    (g : NodeGroup) (n : ℕ)
    → 0 < length g.container
    → turns (suc n) (at g (length g.container)) ≡ turns (suc n) (at g 0)
unfolding turns
turns-end g n h = rw (rolling_node-end g h) refl

turns_all :
    (g : NodeGroup) (n pos : ℕ)
    → pos + n ≤ length g.container
    → turns n (at g pos) ≡ some (take n (drop pos g.container), at g (pos + n))
turns_all g n pos h =
    turns-inside g n 0 n pos (omega arith) h
    ∙ unfold turns in
      ap (λ xs. some (xs, at g (pos + n))) (append-nil (take n (drop pos g.container)))

round_at :
    (g : NodeGroup) (pos : ℕ)
    → pos ≤ length g.container
    → (end : ℕ) × (turns (length g.container) (at g pos)
        ≡ some (drop pos g.container ++ take pos g.container, at g end))
round_at g zero h = (
  0 + length g.container,
  turns_all g (length g.container) 0 (omega arith)
      ∙ ap (λ xs. some (xs, at g (0 + length g.container)))
          (take_all (length g.container) g.container (omega arith) ∙ sym (append-nil g.container)),
)
round_at g (suc k) h =
    let j = length g.container - suc k in
    (
      0 + suc k,
      turns-inside g j (suc k) (length g.container) (suc k) (omega arith) (omega arith)
          ∙ ap₂ after_nodes
              (take_all j (drop (suc k) g.container)
                (omega (arith, length-drop (suc k) g.container)))
              (ap (λ b. turns (suc k) (at g b)) (omega arith)
                ∙ turns-end g k (omega arith)
                ∙ turns_all g (suc k) 0 (omega arith)),
    )

-- A round with as many turns as the group has nodes gives every node its turn, from the one whose
-- turn it is to the end of the list, and then from its front. It does not fault, and the nodes stay.
pub round_lem :
    (g : NodeGroup)
    → g.pos ≤ length g.container
    → (g' : NodeGroup) × (turns (length g.container) g
        ≡ some (drop g.pos g.container ++ take g.pos g.container, g'))
      × (g'.container ≡ g.container)
round_lem g h = let (end, e) = round_at g g.pos h in (at g end, e, refl)
