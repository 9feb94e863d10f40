-- ===== src/Start/Init.antt =====
-- `pgraft_init_from_gucs` of src/pgraft_sql.c, and `pgraft_main` of src/pgraft.c before its loop.
use pgraft.Base.{
  ℕ, Bool, false, not, ◌||◌, Option, none, some, ◌>>=◌, List, [], ◌∷◌, ◌++◌, ◌==◌, lt32,
  if◌then◌else◌, CString, bytes, text_eq, Status, ok, raised,
}
use pgraft.Config.Urls.{parse_url}
use pgraft.Config.Members.{Member, parse_initial_cluster, GucVars, is_unset, validate_configuration}
use pgraft.Worker.State.{Worker}
use pgraft.Golib.Loader.{Process}
use pgraft.Golib.Calls.{
  go_is_loaded, go_is_initialized, go_init_with_config, go_start, go_start_background,
  go_start_network_server,
}
use pgraft.Loop.Commands.{World, load_go, ◌then_try◌}
use pgraft.Loop.Iterate.{start_worker}

-- The variables: those that are validated, and those that only this function reads.
pub record Settings : Type 0 where
  pub guc : GucVars
  pub name : Option CString
  pub listen_client_urls : Option CString
  pub advertise_client_urls : Option CString
  pub initial_advertise_peer_urls : Option CString
  pub data_dir : Option CString

-- A member with its URL taken apart.
pub record GoMember : Type 0 where
  pub name : CString
  pub peer_host : CString
  pub peer_port : ℕ

-- `pgraft_go_config_t`, less the settings that are copied as they are. Where a client's URL cannot
-- be parsed the host is `none`: the pointer that is passed is to memory that was freed.
pub record GoConfig : Type 0 where
  pub node_id : ℕ
  pub name : Option CString
  pub is_new : Bool
  pub cluster_id : CString
  pub cluster_members : List GoMember
  pub listen_peer_host : CString
  pub listen_peer_port : ℕ
  pub listen_client : Option (CString × ℕ)
  pub advertise_client : Option (CString × ℕ)
  pub advertise_peer : Option (CString × ℕ)
  pub data_dir : CString

-- The loop over the members; `none` is elog(ERROR).
unfoldable pub go_members : List Member → Option (List GoMember)
go_members [] = some []
go_members (m ∷ ms) = do
  u ← parse_url (some m.peer_url)
  rest ← go_members ms
  some (record { name = m.name; peer_host = u.0; peer_port = u.1 } ∷ rest)

-- `data_dir`, or the default where it is not set.
unfoldable pub data_dir_of : Option CString → Option CString → CString
data_dir_of name (some (c ∷ path)) = c ∷ path
data_dir_of none dir = bytes "/tmp/pgraft/node"
data_dir_of (some n) dir = bytes "/tmp/pgraft/" ++ n

-- `strcmp(initial_cluster_state, "new") == 0`; the variable has a default and is not NULL.
abbrev pub is_new_cluster : Option CString → Bool
is_new_cluster none = false
is_new_cluster (some s) = text_eq s (bytes "new")

-- The members as they are read; none at all is an error.
unfoldable pub read_cluster : Status × ℕ × List Member → Option (List GoMember)
read_cluster (ok, count, members) = if count == 0 then none else go_members members
read_cluster (s, count, members) = none

-- The port `< 1024 || > 65535`, and no host.
unfoldable pub is_bad_peer : CString × ℕ → Bool
is_bad_peer (host, port) = is_unset (some host) || (lt32 port 1024 || lt32 65535 port)

-- The last tests, and the configuration.
unfoldable pub tested_config : Settings → List GoMember → CString × ℕ → CString → Option GoConfig
tested_config v members (host, port) token =
    if is_unset (some token) || is_bad_peer (host, port)
    then none
    else some (record {
      node_id = 1;
      name = v.name;
      is_new = is_new_cluster v.guc.initial_cluster_state;
      cluster_id = token;
      cluster_members = members;
      listen_peer_host = host;
      listen_peer_port = port;
      listen_client = parse_url v.listen_client_urls;
      advertise_client = parse_url v.advertise_client_urls;
      advertise_peer = parse_url v.initial_advertise_peer_urls;
      data_dir = data_dir_of v.name v.data_dir;
    })

-- The configuration in the order of its tests; `none` is elog(ERROR).
unfoldable pub config_of : Settings → Option GoConfig
config_of v = do
  members ← read_cluster (parse_initial_cluster v.guc.initial_cluster)
  peer ← parse_url v.guc.listen_peer_urls
  token ← v.guc.initial_cluster_token
  tested_config v members peer token

-- A result other than 0 is elog(ERROR) here.
abbrev pub must : Option ℕ → Status
must none = raised
must (some n) = if n == 0 then ok else raised

-- The network server: an error of its own is raised, another result is a warning.
abbrev pub serve : Option ℕ → Status
serve none = raised
serve (some n) = ok

abbrev pub must_load : Status × Process → Status × Process
must_load (ok, p) = (ok, p)
must_load (s, p) = (raised, p)

-- `if (!pgraft_go_is_loaded()) if (pgraft_go_load_library() != 0) elog(ERROR, ...)`
unfoldable pub loaded : World → Process → Status × Process
loaded world p = if go_is_loaded p then (ok, p) else must_load (load_go world p)

-- What Go is asked for, behind the loading. `init_config` is what its newer function answers to a
-- configuration.
unfoldable pub start_go : World → (GoConfig → ℕ) → GoConfig → Status × Process → Status × Process
start_go world init_config config (ok, p) = (
  must (
        go_init_with_config world.go (init_config config) config.node_id config.listen_peer_host
          config.listen_peer_port p)
      then_try must (go_start world.go p)
      then_try serve (go_start_network_server world.go config.listen_peer_port p),
  p,
)
start_go world init_config config (s, p) = (s, p)

-- The validation raises its errors itself.
unfoldable pub if_valid : Status → Process → Status × Process → Status × Process
if_valid ok p started = started
if_valid s p started = (raised, p)

-- `pgraft_go_is_initialized() != 0` is the early return.
unfoldable pub init_from_gucs : World → (GoConfig → ℕ) → Settings → Process → Status × Process
init_from_gucs world init_config v p =
    if not (go_is_initialized world.go p == 0) then (ok, p) else elim (config_of v) [
      | none ↦ (raised, p)
      | some config ↦
          if_valid (validate_configuration v.guc) p
            (start_go world init_config config (loaded world p))
    ]

-- The calls of `pgraft_main` behind the initialisation; the connection to the peers only warns.
unfoldable pub start_loops : World → Status × Process → Status × Process
start_loops world (ok, p) =
    (must (go_start world.go p) then_try must (go_start_background world.go p), p)
start_loops world (s, p) = (raised, p)

unfoldable pub then_init : World → (GoConfig → ℕ) → Settings → Status × Process → Status × Process
then_init world init_config v (ok, p) = init_from_gucs world init_config v p
then_init world init_config v (s, p) = (s, p)

-- The worker up to its loop, whose state it sets last.
unfoldable pub begin_main :
    World → (GoConfig → ℕ) → Settings → Process → Worker → Status × Process × Worker
begin_main world init_config v p w =
    let (s, p') = start_loops world (then_init world init_config v (loaded world p)) in
    (s, p', elim s [ ok ↦ start_worker v.name w | _ ↦ w ])
