-- ===== src/Start/Tests.antt =====
-- The start of a worker whose process has the library.
use pgraft.Base.{
  ◌≡◌, refl, true, false, none, some, [], bytes, text_eq, tokens, tokens_from, break_at, ok, atoi,
  read_digits, read_signed, skip_space,
}
use pgraft.Config.Urls.{
  parse_url, skip_scheme, begins_with, host_and_port, is_bad_port, count_items,
}
use pgraft.Config.Members.{
  parse_initial_cluster, parsed, read_members, contains, is_unset, is_valid_member, check_members,
  has_members, is_known_state, validate_configuration,
}
use pgraft.Worker.State.{fresh_worker, running}
use pgraft.Golib.Loader.{Symbols, Process, no_symbols}
use pgraft.Golib.Calls.{
  go_is_loaded, go_is_initialized, go_init_with_config, go_start, go_start_background,
  go_start_network_server,
}
use pgraft.Loop.Commands.{World}
use pgraft.Start.Init.{
  Settings, GoConfig, go_members, is_bad_peer, read_cluster, tested_config, config_of, loaded,
  start_go, if_valid, init_from_gucs, start_loops, then_init, begin_main,
}
use pgraft.Start.Laws.{IsRead, begin_main-IsRead}

abbrev whole : Symbols
whole = record no_symbols {
  init = true;
  start = true;
  start_background = true;
  start_network_server = true;
}

abbrev ready : Process
ready = record { handle = some whole; pointers = whole; shared_loaded = true }

abbrev world : World
world = record {
  go = record {
    init = λ node_id address port. 0;
    start = 0;
    start_background = 0;
    start_network_server = λ port. 0;
    add_peer = λ attempt node_id address port. 0;
    remove_peer = λ node_id. 0;
    append_log = λ payload len. 0;
    is_initialized = 0;
    is_leader = 1;
    trigger_heartbeat = 0;
  };
  build = record { pkglibdir = []; lib_name = bytes "raft.so"; pg_major = 17 };
  readable = λ path. false;
  opened = λ path. none;
  go_library_path = none;
  timestamp = 5;
  go_view = none;
}

abbrev settings : Settings
settings = record {
  guc = record {
    initial_cluster_token = some (bytes "t");
    listen_peer_urls = some (bytes "http://h:2380");
    initial_cluster = some (bytes "a=http://h:2380");
    initial_cluster_state = some (bytes "new");
    heartbeat_interval = 100;
    election_timeout = 1000;
    snapshot_count = 10000;
    max_log_entries = 1000;
  };
  name = some (bytes "a");
  listen_client_urls = none;
  advertise_client_urls = none;
  initial_advertise_peer_urls = none;
  data_dir = none;
}

begins : (begin_main world (λ c. 0) settings ready fresh_worker).0 ≡ ok
unfolding begin_main start_loops then_init init_from_gucs if_valid start_go loaded config_of
    tested_config read_cluster go_members is_bad_peer go_is_loaded go_is_initialized
    go_init_with_config go_start go_start_background go_start_network_server validate_configuration
    is_known_state has_members check_members is_valid_member is_unset contains read_members parsed
    parse_initial_cluster parse_url skip_scheme begins_with host_and_port is_bad_port count_items
    text_eq tokens tokens_from break_at atoi read_signed read_digits skip_space
begins = refl

begin_main-IsRead_example :
    (validate_configuration settings.guc ≡ ok)
    × ((c : GoConfig) × IsRead settings c)
    × (go_is_loaded (begin_main world (λ c. 0) settings ready fresh_worker).1 ≡ true)
    × ((begin_main world (λ c. 0) settings ready fresh_worker).2.status ≡ running)
begin_main-IsRead_example = begin_main-IsRead world (λ c. 0) settings ready fresh_worker refl begins
