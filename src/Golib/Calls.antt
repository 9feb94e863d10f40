-- ===== src/Golib/Calls.antt =====
-- The calls of src/pgraft_go.c through the function pointers. `none` is elog(ERROR); else the
-- result is the 32 bits of an `int`. The answers of the Go functions are parameters.
use pgraft.Base.{ℕ, Bool, true, false, ◌-◌, not, Option, none, some, if◌then◌else◌, CString, two32}
use pgraft.Golib.Loader.{Process}

-- What the Go functions answer during one iteration of the worker. An addition is told apart by
-- the attempt that it is.
pub record Answers : Type 0 where
  pub init : ℕ → CString → ℕ → ℕ
  pub start : ℕ
  pub start_background : ℕ
  pub start_network_server : ℕ → ℕ
  pub add_peer : ℕ → ℕ → CString → ℕ → ℕ
  pub remove_peer : ℕ → ℕ
  pub append_log : CString → ℕ → ℕ
  pub is_initialized : ℕ
  pub is_leader : ℕ
  pub trigger_heartbeat : ℕ

-- -1
abbrev pub failed32 : ℕ
failed32 = two32 - 1

unfoldable pub go_is_loaded : Process → Bool
go_is_loaded p = elim p.handle [ none ↦ false | some found ↦ true ]

unfoldable pub go_init : Answers → ℕ → CString → ℕ → Process → Option ℕ
go_init go node_id address port p =
    if not (go_is_loaded p)
    then none
    else if not p.pointers.init
    then none
    else some (go.init node_id address port)

-- `init_config` is what the newer function answers to the configuration; `node_id`, `address` and
-- `port` are the configuration's.
unfoldable pub go_init_with_config : Answers → ℕ → ℕ → CString → ℕ → Process → Option ℕ
go_init_with_config go init_config node_id address port p =
    if not (go_is_loaded p)
    then none
    else if p.pointers.init_config
    then some init_config
    else if p.pointers.init
    then some (go.init node_id address port)
    else none

unfoldable pub go_start : Answers → Process → Option ℕ
go_start go p =
    if not (go_is_loaded p) then none else if not p.pointers.start then none else some go.start

unfoldable pub go_start_background : Answers → Process → Option ℕ
go_start_background go p =
    if not (go_is_loaded p)
    then none
    else if not p.pointers.start_background
    then some failed32
    else some go.start_background

unfoldable pub go_start_network_server : Answers → ℕ → Process → Option ℕ
go_start_network_server go port p =
    if not (go_is_loaded p)
    then none
    else if not p.pointers.start_network_server
    then none
    else some (go.start_network_server port)

unfoldable pub go_is_initialized : Answers → Process → ℕ
go_is_initialized go p =
    if not (go_is_loaded p)
    then 0
    else if not p.pointers.is_initialized
    then 0
    else go.is_initialized

unfoldable pub go_is_leader : Answers → Process → ℕ
go_is_leader go p =
    if not (go_is_loaded p)
    then failed32
    else if not p.pointers.is_leader
    then failed32
    else go.is_leader

unfoldable pub go_trigger_heartbeat : Answers → Process → Option ℕ
go_trigger_heartbeat go p =
    if not (go_is_loaded p)
    then none
    else if not p.pointers.trigger_heartbeat
    then some 0
    else some go.trigger_heartbeat

unfoldable pub go_append_log : Answers → CString → ℕ → Process → Option ℕ
go_append_log go payload len p =
    if not (go_is_loaded p)
    then none
    else if not p.pointers.append_log
    then none
    else some (go.append_log payload len)
