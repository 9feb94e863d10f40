-- ===== src/Core/Updates.antt =====
-- The list of nodes that the Go library gives the cluster record of src/pgraft_core.c.
use pgraft.Base.{
  ℕ, zero, suc, ◌+◌, ◌≤◌, ◌≡◌, ◌∙◌, refl, sym, ap, true, false, List, [], ◌∷◌, ◌++◌, append-nil,
  append_assoc, map, length, length-set, length-replicate, get_or, get_or-set_ne, set, take,
  take-set_end, replicate, CString, copy_text, ok, arith,
}
use pgraft.Core.Cluster.{
  Node, blank_node, max_nodes, Cluster, members, copy_nodes, core_update_nodes,
}
use pgraft.Core.Members.{IsBounded}

-- A node as the Go library's list gives it.
abbrev pub listed : ℕ × CString → Node
listed (node_id, address) = record {
  id = node_id;
  address = copy_text 255 address;
  port = 0;
  is_leader = false;
}

record Copied (i rounds : ℕ) (given : List (ℕ × CString)) (nodes : List Node) (out : List Node × ℕ)
    : Type 0 where
  copied : take out.1 out.0 ≡ take i nodes ++ map listed (take rounds given)
  within : out.1 ≤ i + rounds
  same_length : length out.0 ≡ length nodes

copy_nodes-Copied :
    (rounds i : ℕ) (given : List (ℕ × CString)) (nodes : List Node)
    → i + rounds ≤ length nodes
    → ((k : ℕ) → i ≤ k → get_or nodes k blank_node ≡ blank_node)
    → Copied i rounds given nodes (copy_nodes rounds i given nodes)
unfolding copy_nodes
copy_nodes-Copied zero i given nodes fits fresh = record {
  copied = sym (append-nil (take i nodes));
  within = omega arith;
  same_length = refl;
}
copy_nodes-Copied (suc rounds) i [] nodes fits fresh = record {
  copied = sym (append-nil (take i nodes));
  within = omega arith;
  same_length = refl;
}
copy_nodes-Copied (suc rounds) i ((node_id, address) ∷ given) nodes fits fresh =
    let n : Node = record (get_or nodes i blank_node) {
      id = node_id;
      address = copy_text 255 address;
    } in
    let rest =
      copy_nodes-Copied rounds (i + 1) given (set nodes i n) (omega (arith, length-set nodes i n))
        (λ k le. get_or-set_ne nodes i k n blank_node (omega arith) ∙ fresh k (omega arith)) in
    let made : n ≡ listed (node_id, address) =
      ap (λ (o : Node). record o { id = node_id; address = copy_text 255 address })
        (fresh i (omega arith)) in
    record {
      copied =
          rest.copied
          ∙ rw (take-set_end i nodes n (omega arith), append_assoc)
              (ap (λ x. take i nodes ++ (x ∷ map listed (take rounds given))) made);
      within = omega (arith, rest.within);
      same_length = rest.same_length ∙ length-set nodes i n;
    }

get_or-replicate : (n k : ℕ) (x : Node) → get_or (replicate n x) k x ≡ x
get_or-replicate zero k x = refl
get_or-replicate (suc n) zero x = refl
get_or-replicate (suc n) (suc k) x = get_or-replicate n k x

-- An update of the nodes of an initialised cluster succeeds and makes the members the first 16 of
-- the nodes given, in their order, each with its identifier, its address cut to the field, port 0
-- and no leader, whatever the members were.
pub update_nodes-members :
    (given : List (ℕ × CString)) (c : Cluster)
    → c.initialized ≡ true
    → ((core_update_nodes given c).0 ≡ ok)
      × (members (core_update_nodes given c).1 ≡ map listed (take max_nodes given))
      × IsBounded (core_update_nodes given c).1
unfolding core_update_nodes
update_nodes-members given c live =
    let all =
      copy_nodes-Copied max_nodes 0 given (replicate max_nodes blank_node)
        (omega (arith, length-replicate max_nodes blank_node))
        (λ k le. get_or-replicate max_nodes k blank_node) in
    rw live (
      refl,
      all.copied,
      record {
        sized = all.same_length ∙ length-replicate max_nodes blank_node;
        within = all.within;
      },
    )
