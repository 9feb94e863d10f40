-- ===== src/Sql/Rows.antt =====
-- Rows of the table of nodes.
use mathlib.Core.List.{map-append}
use pgraft.Base.{
  ℕ, zero, suc, ◌<◌, ◌≡◌, ◌∙◌, refl, ap, false, true, none, [], ◌∷◌, ◌++◌, length, length-take, map,
  take, take-all, leb, ◌==◌, widen, break_at, Lacks, CString, copy_text, arith,
}
use pgraft.Core.Cluster.{Cluster, max_nodes, members, core_add_node, core_get_cluster_state}
use pgraft.Core.Members.{IsBounded, joining, add-members}
use pgraft.Sql.Tables.{node_row, host_and_port, rows_of, get_nodes_table}

break_at-plain : (c n : ℕ) (s : CString) → Lacks c s → break_at c (take n s) ≡ none
unfolding break_at
break_at-plain c zero s h = refl
break_at-plain c (suc n) [] h = refl
break_at-plain c (suc n) (b ∷ s) h = rw (h.0, break_at-plain c n s h.1) refl

host_and_port-plain : (n : ℕ) (s : CString) → Lacks 58 s → host_and_port (take n s) ≡ (take n s, 0)
unfolding host_and_port
host_and_port-plain n s h = rw (host_and_port, break_at-plain 58 n s h) refl

table-members :
    (c : Cluster)
    → IsBounded c
    → c.initialized ≡ true
    → get_nodes_table c ≡ map (node_row c.leader_id) (members c)
unfolding get_nodes_table rows_of core_get_cluster_state
table-members c b live =
    rw (get_nodes_table, core_get_cluster_state, live)
      (ap (map (node_row c.leader_id))
        (take-all max_nodes (members c) (omega (arith, length-take c.num_nodes c.nodes, b.sized))))

added-keeps :
    (node_id : ℕ) (address : CString) (port : ℕ) (c : Cluster)
    → ((core_add_node node_id address port c).1.initialized ≡ c.initialized)
      × ((core_add_node node_id address port c).1.leader_id ≡ c.leader_id)
unfolding core_add_node
added-keeps node_id address port c = ground arith

-- Adding a node whose address has no colon to an initialised cluster with 16 slots and fewer than 16
-- nodes puts one row below those of the table of nodes: the identifier, the first 255 bytes of the
-- address, the port 0 whatever port was given, and whether the identifier is the leader's.
pub added-row :
    (node_id : ℕ) (address : CString) (port : ℕ) (c : Cluster)
    → IsBounded c
    → c.initialized ≡ true
    → length (members c) < max_nodes
    → Lacks 58 address
    → get_nodes_table (core_add_node node_id address port c).1
      ≡ get_nodes_table c
        ++ (record {
          id = node_id;
          host = copy_text 255 address;
          port = 0;
          is_leader = c.leader_id == widen node_id;
        }
            ∷ [])
unfolding node_row
added-row node_id address port c b live room plain =
    let added = add-members node_id address port c b live in
    let keeps = added-keeps node_id address port c in
    let some_room : leb max_nodes (length (members c)) ≡ false = ground arith in
    table-members (core_add_node node_id address port c).1 added.2 (keeps.0 ∙ live)
    ∙ rw (added.1, keeps.1, some_room)
        (map-append (node_row c.leader_id) (members c) (joining node_id address port ∷ [])
          ∙ rw (table-members c b live) (
              ap (λ r. map (node_row c.leader_id) (members c) ++ (r ∷ []))
                (rw (node_row, host_and_port-plain 255 address plain) refl)))
