-- ===== src/Core/Members.antt =====
-- The members of the cluster record of src/pgraft_core.c as a list of at most 16 nodes.
use pgraft.Base.{
  ℕ, zero, suc, ◌-◌, ◌<◌, ◌≤◌, ◌≡◌, ◌∙◌, refl, sym, ap, inl, inr, Bool, true, false, none, some,
  List, [], ◌∷◌, ◌++◌, length, length-set, length-take, take, take-set_end, find_index,
  find_index-lt, remove_at, take-shift_down, length-shift_down, leb, if◌then◌else◌, Bool-cases,
  Option-cases, CString, copy_text, ok, fail, raised, arith,
}
use pgraft.Core.Cluster.{
  Node, blank_node, max_nodes, Cluster, members, has_id, core_add_node, remove_found,
  core_remove_node,
}

pub record IsBounded (c : Cluster) : Type 0 where
  pub sized : length c.nodes ≡ max_nodes
  pub within : c.num_nodes ≤ max_nodes

-- A node as it joins.
abbrev pub joining : ℕ → CString → ℕ → Node
joining node_id address port = record {
  id = node_id;
  address = copy_text 255 address;
  port = port;
  is_leader = false;
}

-- The first node with the identifier taken out.
unfoldable pub without : ℕ → List Node → List Node
without node_id [] = []
without node_id (n ∷ ns) = if has_id node_id n then ns else n ∷ without node_id ns

abbrev pub has_member : ℕ → List Node → Bool
has_member node_id [] = false
has_member node_id (n ∷ ns) = if has_id node_id n then true else has_member node_id ns

without-found :
    (node_id i : ℕ) (ns : List Node)
    → find_index (has_id node_id) ns ≡ some i
    → (without node_id ns ≡ remove_at i ns) × (has_member node_id ns ≡ true)
unfolding find_index without remove_at
without-found node_id i [] e = cc
without-found node_id zero (n ∷ ns) e = elim (Bool-cases (has_id node_id n)) [
  | inl hit ↦ rw hit (refl, refl)
  | inr miss ↦ ground (arith, miss)
]
without-found node_id (suc i) (n ∷ ns) e = ground (arith, without-found node_id i ns)

without-missing :
    (node_id : ℕ) (ns : List Node)
    → find_index (has_id node_id) ns ≡ none
    → (without node_id ns ≡ ns) × (has_member node_id ns ≡ false)
unfolding find_index without
without-missing node_id [] e = (refl, refl)
without-missing node_id (n ∷ ns) e = ground (arith, without-missing node_id ns)

-- Adding a node to an initialised cluster of at most 16 nodes succeeds exactly when there are fewer
-- than 16, puts the node last and moves no other; otherwise an error is raised and nothing changes.
pub add-members :
    (node_id : ℕ) (address : CString) (port : ℕ) (c : Cluster)
    → IsBounded c
    → c.initialized ≡ true
    → ((core_add_node node_id address port c).0
        ≡ (if leb max_nodes (length (members c)) then raised else ok))
      × (members (core_add_node node_id address port c).1 ≡ (
          if leb max_nodes (length (members c))
          then members c
          else members c ++ (joining node_id address port ∷ [])))
      × IsBounded (core_add_node node_id address port c).1
unfolding core_add_node
add-members node_id address port c b live =
    let many : length (members c) ≡ c.num_nodes =
      omega (arith, length-take c.num_nodes c.nodes, b.sized, b.within) in
    rw (live, many)
      (elim (Bool-cases (leb max_nodes c.num_nodes)) [
        | inl full ↦ rw full (refl, refl, record { sized = b.sized; within = b.within })
        | inr room ↦
            let lt : c.num_nodes < max_nodes = ground arith in
            rw room (
              refl,
              take-set_end c.num_nodes c.nodes (joining node_id address port)
                  (omega (arith, b.sized)),
              record {
                sized = length-set c.nodes c.num_nodes (joining node_id address port) ∙ b.sized;
                within = omega arith;
              },
            )
      ])

removed-members :
    (i : ℕ) (c : Cluster)
    → IsBounded c
    → i < length (members c)
    → members (remove_found c (some i)).1 ≡ remove_at i (members c)
unfolding remove_found
removed-members i c b lt =
    take-shift_down blank_node i (c.num_nodes - 1 - i) (c.num_nodes - 1) c.nodes
      (omega (arith, inside)) (omega (arith, inside, b.sized, b.within))
    ∙ ap (λ m. remove_at i (take m c.nodes)) {x = suc (c.num_nodes - 1)} (omega (arith, inside))
  where
    inside : i < c.num_nodes
    inside = omega (arith, lt, length-take c.num_nodes c.nodes)

-- Removing a node from an initialised cluster of at most 16 nodes succeeds exactly when a member
-- has the identifier, takes out the first such member and keeps the order of the others;
-- otherwise it reports failure and no member changes.
pub remove-members :
    (node_id : ℕ) (c : Cluster)
    → IsBounded c
    → c.initialized ≡ true
    → ((core_remove_node node_id c).0 ≡ (if has_member node_id (members c) then ok else fail))
      × (members (core_remove_node node_id c).1 ≡ without node_id (members c))
      × IsBounded (core_remove_node node_id c).1
unfolding core_remove_node remove_found
remove-members node_id c b live =
    rw live (elim (Option-cases (find_index (has_id node_id) (members c))) [
      | inl e ↦
          let w = without-missing node_id (members c) e in
          rw e (rw w.1 refl, sym w.0, record { sized = b.sized; within = b.within })
      | inr (i, e) ↦
          let w = without-found node_id i (members c) e in
          rw e (
            rw w.1 refl,
            removed-members i c b (find_index-lt (has_id node_id) (members c) i e) ∙ sym w.0,
            record {
              sized = length-shift_down blank_node (c.num_nodes - 1 - i) i c.nodes ∙ b.sized;
              within = omega (arith, b.within);
            },
          )
    ])
