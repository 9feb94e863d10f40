-- ===== src/Golib/Loader.antt =====
-- `pgraft_go_load_library`, `pgraft_go_load_symbols`, `pgraft_go_check_version` and
-- `pgraft_go_unload_library` of src/pgraft_go.c.
use pgraft.Base.{
  ℕ, Bool, true, false, Option, none, some, ◌>>=◌, List, [], ◌∷◌, ◌++◌, if◌then◌else◌, CString,
  bytes, decimal32, Status, ok, raised, find,
}

-- Which functions there are, in the library or behind the process's pointers. Pointers that only
-- the Go tests use are left out.
pub record Symbols : Type 0 where
  pub init : Bool
  pub init_config : Bool
  pub start : Bool
  pub start_background : Bool
  pub stop : Bool
  pub add_peer : Bool
  pub get_leader : Bool
  pub get_term : Bool
  pub get_node_id : Bool
  pub version : Bool
  pub remove_peer : Bool
  pub is_initialized : Bool
  pub is_leader : Bool
  pub append_log : Bool
  pub start_network_server : Bool
  pub trigger_heartbeat : Bool

abbrev pub no_symbols : Symbols
no_symbols = record {
  init = false;
  init_config = false;
  start = false;
  start_background = false;
  stop = false;
  add_peer = false;
  get_leader = false;
  get_term = false;
  get_node_id = false;
  version = false;
  remove_peer = false;
  is_initialized = false;
  is_leader = false;
  append_log = false;
  start_network_server = false;
  trigger_heartbeat = false;
}

-- The static variables of a process: the handle, `none` for NULL and else the functions of the
-- library that it opens, and the pointers.
-- `shared_loaded` is the flag in shared memory that `pgraft_state_set_go_lib_loaded` sets.
pub record Process : Type 0 where
  pub handle : Option Symbols
  pub pointers : Symbols
  pub shared_loaded : Bool

abbrev pub new_process : Process
new_process = record { handle = none; pointers = no_symbols; shared_loaded = false }

-- The build's constants.
pub record Build : Type 0 where
  pub pkglibdir : CString
  pub lib_name : CString
  pub pg_major : ℕ

-- The five places that are tried.
abbrev pub alt_paths : Build → List CString
alt_paths b =
    (bytes "./src/" ++ b.lib_name)
    ∷ (b.pkglibdir ++ (bytes "/" ++ b.lib_name))
    ∷ (bytes "/usr/lib/postgresql/" ++ (decimal32 b.pg_major ++ (bytes "/lib/" ++ b.lib_name)))
    ∷ (bytes "/usr/local/lib/postgresql/" ++ b.lib_name)
    ∷ (bytes "/usr/pgsql-" ++ (decimal32 b.pg_major ++ (bytes "/lib/" ++ b.lib_name)))
    ∷ []

-- `pgraft.go_library_path`, or the default where it is NULL or empty.
abbrev pub configured_path : Build → Option CString → CString
configured_path b none = b.pkglibdir ++ (bytes "/" ++ b.lib_name)
configured_path b (some []) = b.pkglibdir ++ (bytes "/" ++ b.lib_name)
configured_path b (some (c ∷ path)) = c ∷ path

-- The path that is loaded, where `readable` is what `access` answers; paths are not cut at the
-- 1024 bytes of their buffers.
unfoldable pub library_path : Build → (CString → Bool) → Option CString → Option CString
library_path b readable setting =
    if readable (configured_path b setting)
    then some (configured_path b setting)
    else find readable (alt_paths b)

-- A pointer without which the function raises an error. It is assigned before the test.
abbrev pub need : Bool → Symbols → Status × Symbols → Status × Symbols
need true p rest = rest
need false p rest = (raised, p)

-- What the pointers are once the functions named in an order up to one of them are looked up.
unfoldable pub load_symbols : Symbols → Symbols → Status × Symbols
load_symbols found p =
    let p1 : Symbols = record p { init = found.init } in
    let p2 : Symbols = record p1 { init_config = found.init_config; start = found.start } in
    let p3 : Symbols = record p2 { start_background = found.start_background; stop = found.stop } in
    let p4 : Symbols = record p3 { add_peer = found.add_peer } in
    let p5 : Symbols = record p4 { get_leader = found.get_leader } in
    let p6 : Symbols = record p5 { get_term = found.get_term } in
    let p7 : Symbols = record p6 { get_node_id = found.get_node_id } in
    let p8 : Symbols = record p7 { version = found.version } in
    need found.init p1 (
      need found.start p2 (
        need found.stop p3 (
          need found.add_peer p4 (
            need found.get_leader p5 (
              need found.get_term p6
                (need found.get_node_id p7 (need found.version p8 (ok, found))))))))

-- The version is only reported.
unfoldable pub check_version : Symbols → Status
check_version p = ok

-- A handle whose pointers are not set.
unfoldable pub reload_symbols : Status × Symbols → Process → Status × Process
reload_symbols (s, pointers) p = (s, record p { pointers = pointers })

-- Behind `dlopen`. The handle stays set when the lookup of the symbols raises its error: the
-- assignments behind the call do not run.
unfoldable pub with_symbols : Symbols → Status × Symbols → Process → Status × Process
with_symbols found (ok, pointers) p = (
  check_version pointers,
  record { handle = some found; pointers = pointers; shared_loaded = true },
)
with_symbols found (s, pointers) p = (s, record p { handle = some found; pointers = pointers })

unfoldable pub open_library : Option Symbols → Process → Status × Process
open_library none p = (raised, p)
open_library (some found) p = with_symbols found (load_symbols found p.pointers) p

-- `opened` is what `dlopen` yields for a path: the functions of the library, or `none`.
unfoldable pub load_library :
    Build
    → (CString → Bool)
    → (CString → Option Symbols)
    → Option CString
    → Process
    → Status × Process
load_library b readable opened setting p = elim p.handle [
  | none ↦ open_library (library_path b readable setting >>= opened) p
  | some found ↦
      if p.pointers.init then (ok, p) else reload_symbols (load_symbols found p.pointers) p
]

-- The pointers that are not in the list of assignments keep their values.
unfoldable pub unload_library : Process → Process
unload_library p = record {
  handle = none;
  pointers = record p.pointers {
    init = false;
    init_config = false;
    start = false;
    stop = false;
    add_peer = false;
    remove_peer = false;
    get_leader = false;
    get_term = false;
    get_node_id = false;
    is_leader = false;
    version = false;
  };
  shared_loaded = false;
}
