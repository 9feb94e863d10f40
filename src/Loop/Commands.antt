-- ===== src/Loop/Commands.antt =====
-- The helpers of the worker's loop in src/pgraft.c: `pgraft_init_system`, `pgraft_add_node_system`,
-- `pgraft_remove_node_system` and `pgraft_log_append_system` to `pgraft_log_apply_system`.
use pgraft.Base.{
  Bool, ℕ, zero, suc, ◌+◌, Option, none, some, ltb, ◌==◌, if◌then◌else◌, length, widen, CString,
  Status, ok, fail, raised, fault,
}
use pgraft.Core.Cluster.{Cluster, core_init, core_add_node, core_remove_node}
use pgraft.Log.State.{LogState}
use pgraft.Log.Ops.{append_entry, commit_entry, apply_entry}
use pgraft.Replicate.Write.{GoView}
use pgraft.Golib.Loader.{Symbols, Process, Build, load_library}
use pgraft.Golib.Calls.{Answers, go_is_loaded, go_start, go_start_network_server}

-- What the surroundings do during one iteration: the Go library's answers, the files and libraries
-- that the loader finds, and `GetCurrentTimestamp`; and what `pgraft_update_shared_memory_from_go` asks Go for.
pub record World : Type 0 where
  pub go : Answers
  pub build : Build
  pub readable : CString → Bool
  pub opened : CString → Option Symbols
  pub go_library_path : Option CString
  pub timestamp : ℕ
  pub go_view : Option GoView

abbrev pub load_go : World → Process → Status × Process
load_go world p = load_library world.build world.readable world.opened world.go_library_path p

-- `!= 0` on the result of a call: -1, or the error that the call raises.
abbrev pub result_of : Option ℕ → Status
result_of none = raised
result_of (some n) = if n == 0 then ok else fail

-- One call after another, as long as they succeed.
infixr 4 ◌then_try◌
abbrev pub ◌then_try◌ : Status → Status → Status
ok then_try t = t
fail then_try t = fail
raised then_try t = raised
fault then_try t = fault

-- `init_func` is called through the pointer, without a test that the handle is set.
unfoldable pub init_go : World → ℕ → CString → ℕ → Status × Process → Status × Process
init_go world node_id address port (ok, p) = (
  (if p.pointers.init then result_of (some (world.go.init node_id address port)) else fail)
      then_try result_of (go_start world.go p)
      then_try result_of (go_start_network_server world.go port p),
  p,
)
init_go world node_id address port (s, p) = (s, p)

unfoldable pub init_system :
    World → ℕ → CString → ℕ → Cluster → Process → Status × Cluster × Process
init_system world node_id address port c p =
    let (s, c') = core_init node_id address port c in
    elim s [
      | ok ↦ let (t, p') = init_go world node_id address port (load_go world p) in (t, c', p')
      | fail ↦ (fail, c', p)
      | raised ↦ (raised, c', p)
      | fault ↦ (fault, c', p)
    ]

-- `for (retry_count = 0; retry_count < 3; retry_count++)`, with the rounds left.
unfoldable pub add_peer_loop : ℕ → ℕ → World → ℕ → CString → ℕ → Status
add_peer_loop zero retry_count world node_id address port = ok
add_peer_loop (suc rounds) retry_count world node_id address port =
    let rest = add_peer_loop rounds (retry_count + 1) world node_id address port in
    if world.go.add_peer retry_count node_id address port == 0
    then ok
    else if ltb retry_count 2
    then rest
    else fail

unfoldable pub add_node_system : World → ℕ → CString → ℕ → Cluster → Process → Status × Cluster
add_node_system world node_id address port c p =
    let (s, c') = core_add_node node_id address port c in
    (
      s
          then_try (if go_is_loaded p
              then if p.pointers.add_peer then add_peer_loop 3 0 world node_id address port else ok
              else ok),
      c',
    )

-- What follows the Go library's answer: where it refuses, the cluster keeps the node.
unfoldable pub remove_core : Status → ℕ → Cluster → Status × Cluster
remove_core ok node_id c = core_remove_node node_id c
remove_core s node_id c = (fail, c)

unfoldable pub remove_node_system : World → ℕ → Cluster → Process → Status × Cluster
remove_node_system world node_id c p =
    let removed : Status =
      if go_is_loaded p
      then if p.pointers.remove_peer then result_of (some (world.go.remove_peer node_id)) else ok
      else ok in
    remove_core removed node_id c

-- The index that the command carries is passed as the term.
unfoldable pub log_append_system : World → CString → ℕ → LogState → Status × LogState
log_append_system world log_data log_index l =
    append_entry world.timestamp (widen log_index) (some log_data) (length log_data) l

unfoldable pub log_commit_system : ℕ → LogState → Status × LogState
log_commit_system log_index l = commit_entry (widen log_index) l

unfoldable pub log_apply_system : ℕ → LogState → Status × LogState
log_apply_system log_index l = apply_entry (widen log_index) l
