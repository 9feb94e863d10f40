-- ===== src/GoState/Restore.antt =====
-- What src/pgraft_state.c restores after it has saved.
use native.Mathlib.Numerals.{add-one}
use pgraft.Base.{
  ℕ, zero, suc, ◌+◌, ◌<◌, ◌≤◌, ◌≡◌, ◌∙◌, refl, sym, ap, true, some, List, [], ◌∷◌, ◌++◌,
  append_assoc, map, length, length-set, length-map, length-append, length-take, get_or, set, take,
  take-append, take-append-drop, take-set_end, drop, drop-cons, drop-set_lt, two32, CString,
  copy_text, ok, arith,
}
use mathlib.Core.Path.{ap₂}
use pgraft.GoState.State.{
  NodeSlot, blank_slot, node_slots, GoState, rounds_of, save_slots, save_cluster_nodes,
  restore_cluster_nodes, save_node_config, restore_node_config,
}

-- A node with its address cut to the field.
abbrev pub cut : NodeSlot → NodeSlot
cut n = record { id = n.id; address = copy_text 255 n.address; port = n.port }

take-take : (n : ℕ) (s : CString) → take n (take n s) ≡ take n s
take-take zero s = refl
take-take (suc n) [] = refl
take-take (suc n) (x ∷ s) = ap (λ t. x ∷ t) (take-take n s)

map-cut_twice : (ns : List NodeSlot) → map cut (map cut ns) ≡ map cut ns
map-cut_twice [] = refl
map-cut_twice (n ∷ ns) = rw (map-cut_twice ns) (
    ap (λ a. record { id = n.id; address = a; port = n.port } ∷ map cut ns)
      (take-take 255 n.address))

save_slots-eq :
    (rounds i : ℕ) (given nodes : List NodeSlot)
    → i + rounds ≤ length given
    → i + rounds ≤ length nodes
    → save_slots rounds i given nodes
      ≡ take i nodes ++ (map cut (take rounds (drop i given)) ++ drop (i + rounds) nodes)
unfolding save_slots
save_slots-eq zero i given nodes p q =
    sym (take-append-drop i nodes) ∙ ap (λ k. take i nodes ++ drop k nodes) (omega arith)
save_slots-eq (suc rounds) i given nodes p q =
    let n : NodeSlot = cut (get_or given i blank_slot) in
    save_slots-eq rounds (i + 1) given (set nodes i n) (omega arith)
      (omega (arith, length-set nodes i n))
    ∙ rw
        (
          take-set_end i nodes n (omega arith),
          append_assoc,
          drop-set_lt (i + 1 + rounds) nodes i n (omega arith),
          drop-cons i given blank_slot (omega arith),
          add-one,
        )
        (ap
          (λ k. take i nodes ++ (n ∷ (map cut (take rounds (drop (suc i) given)) ++ drop k nodes)))
          (omega arith))

pub rounds_of-le : (n : ℕ) → n < two32 → rounds_of n ≤ node_slots
unfolding rounds_of
rounds_of-le n h = ground arith

module _ (num_nodes : ℕ) (given out : List NodeSlot) (st : GoState) (fits : num_nodes < two32)
    (given_long : rounds_of num_nodes ≤ length given) (out_long : rounds_of num_nodes ≤ length out)
    (sized : length st.nodes ≡ node_slots) where
  saved-eq :
      (save_cluster_nodes num_nodes given st).nodes
      ≡ map cut (take (rounds_of num_nodes) given) ++ drop (rounds_of num_nodes) st.nodes
  unfolding save_cluster_nodes
  saved-eq =
      save_slots-eq (rounds_of num_nodes) 0 given st.nodes (omega arith)
        (omega (arith, rounds_of-le num_nodes fits))
      ∙ ap (λ k. map cut (take (rounds_of num_nodes) given) ++ drop k st.nodes) (omega arith)

  saved_first :
      take (rounds_of num_nodes) (save_cluster_nodes num_nodes given st).nodes
      ≡ map cut (take (rounds_of num_nodes) given)
  saved_first =
      ap (take (rounds_of num_nodes)) saved-eq
      ∙ ap
          (λ k.
            take k
              (map cut (take (rounds_of num_nodes) given) ++ drop (rounds_of num_nodes) st.nodes))
          (sym (
            length-map (take (rounds_of num_nodes) given) cut
            ∙ omega (arith, length-take (rounds_of num_nodes) given)))
      ∙ take-append (map cut (take (rounds_of num_nodes) given))
          (drop (rounds_of num_nodes) st.nodes)

  restored-eq :
      save_slots (rounds_of num_nodes) 0 (save_cluster_nodes num_nodes given st).nodes out
      ≡ map cut (take (rounds_of num_nodes) given) ++ drop (rounds_of num_nodes) out
  restored-eq =
      save_slots-eq (rounds_of num_nodes) 0 (save_cluster_nodes num_nodes given st).nodes out
        (omega (
          arith,
          ap length saved-eq,
          length-append (map cut (take (rounds_of num_nodes) given))
              (drop (rounds_of num_nodes) st.nodes),
          length-map (take (rounds_of num_nodes) given) cut,
          length-take (rounds_of num_nodes) given,
        ))
        (omega arith)
      ∙ ap₂ (λ l k. map cut l ++ drop k out) saved_first
          (let e : 0 + rounds_of num_nodes ≡ rounds_of num_nodes = omega arith in e)
      ∙ rw (map-cut_twice (take (rounds_of num_nodes) given))

  -- Saving the nodes and restoring them gives back the number that was passed, whatever it is, and
  -- the nodes, with their addresses cut to the fields, but no more than 16 of them: what lies behind
  -- them in the caller's arrays stays. The arrays hold as many elements as the loops read, and the
  -- structure has its 16 slots.
  pub restore-save : restore_cluster_nodes true out (save_cluster_nodes num_nodes given st) ≡ (
    ok,
    some (num_nodes, map cut (take (rounds_of num_nodes) given) ++ drop (rounds_of num_nodes) out),
  )
  unfolding restore_cluster_nodes save_cluster_nodes
  restore-save = ap (λ l. (ok, some (num_nodes, l))) restored-eq

-- Saving a node's configuration and restoring it, with all output arguments given, gives back the
-- identifier, the port and as much of the address as fits the field; nodes saved in between do not
-- change it.
pub restore-save_config :
    (node_id port num_nodes : ℕ) (address : CString) (given : List NodeSlot) (st : GoState)
    → restore_node_config true
        (save_cluster_nodes num_nodes given (save_node_config node_id (some address) port st))
      ≡ (ok, some (node_id, copy_text 255 address, port))
unfolding restore_node_config save_node_config save_cluster_nodes
restore-save_config node_id port num_nodes address given st =
    ap (λ a. (ok, some (node_id, a, port))) (take-take 255 address)
