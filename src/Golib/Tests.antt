-- ===== src/Golib/Tests.antt =====
-- Loading libraries that have all functions, or lack one.
use pgraft.Base.{
  ◌≡◌, refl, Bool, true, false, Option, none, some, ◌>>=◌, CString, bytes, ok, raised,
}
use pgraft.Golib.Loader.{
  Symbols, Process, new_process, no_symbols, Build, library_path, load_symbols, open_library,
  with_symbols, check_version, load_library,
}
use pgraft.Golib.Calls.{Answers, go_is_loaded, go_init, go_start}
use pgraft.Golib.Laws.{IsReady, load-IsReady, load-again}

abbrev here : Build
here = record { pkglibdir = bytes "/pg"; lib_name = bytes "raft.so"; pg_major = 17 }

abbrev all_readable : CString → Bool
all_readable path = true

abbrev whole : Symbols
whole = record no_symbols {
  init = true;
  start = true;
  stop = true;
  add_peer = true;
  get_leader = true;
  get_term = true;
  get_node_id = true;
  version = true;
}

abbrev halved : Symbols
halved = record whole { add_peer = false }

abbrev opens_whole : CString → Option Symbols
opens_whole path = some whole

abbrev opens_halved : CString → Option Symbols
opens_halved path = some halved

abbrev answers : Answers
answers = record {
  init = λ node_id address port. port;
  start = 0;
  start_background = 0;
  start_network_server = λ port. 0;
  add_peer = λ attempt node_id address port. 0;
  remove_peer = λ node_id. 0;
  append_log = λ payload len. 0;
  is_initialized = 1;
  is_leader = 1;
  trigger_heartbeat = 0;
}

abbrev loaded : Process
loaded = (load_library here all_readable opens_whole none new_process).1

whole_loads : (load_library here all_readable opens_whole none new_process).0 ≡ ok
unfolding load_library library_path open_library load_symbols with_symbols check_version
whole_loads = refl

load-IsReady_example :
    IsReady loaded
    × (go_init answers 1 (bytes "h") 7 loaded ≡ some 7)
    × (go_start answers loaded ≡ some 0)
load-IsReady_example =
    load-IsReady here all_readable opens_whole none answers 1 7 (bytes "h") whole_loads

halved_found : (library_path here all_readable none >>= opens_halved) ≡ some halved
unfolding library_path
halved_found = refl

halved_lacks : (load_symbols halved no_symbols).0 ≡ raised
unfolding load_symbols
halved_lacks = refl

load-again_example :
    ((load_library here all_readable opens_halved none new_process).0 ≡ raised)
    × ((load_library here all_readable opens_halved none
          (load_library here all_readable opens_halved none new_process).1).0
        ≡ ok)
    × (go_is_loaded (load_library here all_readable opens_halved none new_process).1 ≡ true)
load-again_example =
    load-again here all_readable opens_halved none answers halved halved_found refl halved_lacks
