-- ===== src/GoState/Tests.antt =====
-- The theorems on the Go library's state at concrete states.
use pgraft.Base.{
  ◌≡◌, true, some, none, List, ◌++◌, map, take, drop, length, length-replicate, ok, bytes,
  replicate, arith,
}
use pgraft.GoState.State.{
  NodeSlot, GoState, blank_slot, node_slots, init_go_state, rounds_of, save_cluster_nodes,
  restore_cluster_nodes,
}
use pgraft.GoState.Restore.{cut, restore-save}

abbrev fresh : GoState
fresh = init_go_state none

fresh-sized : length fresh.nodes ≡ node_slots
unfolding init_go_state
fresh-sized = length-replicate node_slots blank_slot

-- An array of 20 nodes, more than the slots.
abbrev many : List NodeSlot
many = replicate 20 (record { id = 3; address = bytes "10.0.0.3"; port = 7003 })

abbrev buffers : List NodeSlot
buffers = replicate 20 blank_slot

restore-save_example :
    restore_cluster_nodes true buffers (save_cluster_nodes 20 many fresh)
    ≡ (ok, some (20, map cut (take (rounds_of 20) many) ++ drop (rounds_of 20) buffers))
unfolding rounds_of
restore-save_example =
    restore-save 20 many buffers fresh (omega arith) (omega arith) (omega arith) fresh-sized
