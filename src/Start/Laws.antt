-- ===== src/Start/Laws.antt =====
-- What holds once the worker of src/pgraft.c reaches its loop.
use pgraft.Base.{
  ℕ, suc, ◌≡◌, ◌∙◌, refl, sym, ap, inl, inr, Bool, true, false, ◌||◌, Option, none, some, ◌>>=◌,
  List, [], ◌∷◌, ◌==◌, Bool-cases, Option-cases, length, CString, Status, ok, fail, raised, fault,
  arith,
}
use pgraft.Config.Urls.{parse_url}
use pgraft.Config.Members.{Member, parse_initial_cluster, is_unset, validate_configuration}
use pgraft.Worker.State.{Worker, running}
use pgraft.Golib.Loader.{Process}
use pgraft.Golib.Calls.{Answers, go_is_loaded, go_is_initialized, go_start}
use pgraft.Loop.Commands.{World, ◌then_try◌}
use pgraft.Loop.Iterate.{start_worker}
use pgraft.Start.Init.{
  Settings, GoMember, GoConfig, go_members, read_cluster, is_bad_peer, config_of, must, loaded,
  start_go, init_from_gucs, start_loops, then_init, begin_main, if_valid, tested_config,
  is_new_cluster, data_dir_of,
}

-- A configuration that was read: a member for each that the list names, and a peer address that
-- may be listened on.
pub record IsRead (v : Settings) (c : GoConfig) : Type 0 where
  pub made : config_of v ≡ some c
  pub cluster_read : (parse_initial_cluster v.guc.initial_cluster).0 ≡ ok
  pub all_members :
      length c.cluster_members ≡ length (parse_initial_cluster v.guc.initial_cluster).2
  pub good_peer : is_bad_peer (c.listen_peer_host, c.listen_peer_port) ≡ false

-- A chain of calls that each may fail succeeds only where its parts do.
bind-some {ℓ κ} :
    {A : Type ℓ} {B : Type κ} (o : Option A) (f : A → Option B) (b : B)
    → (o >>= f) ≡ some b
    → (a : A) × (o ≡ some a) × (f a ≡ some b)
bind-some none f b h = cc h
bind-some (some a) f b h = (a, refl, h)

some-inj {ℓ} : {A : Type ℓ} {a b : A} → some a ≡ some b → a ≡ b
some-inj h = cc h

length-go_members :
    (ms : List Member) (gs : List GoMember) → go_members ms ≡ some gs → length gs ≡ length ms
unfolding go_members
length-go_members [] gs h = sym (ap length (some-inj h))
length-go_members (m ∷ ms) gs h =
    let (u, at, h') = bind-some (parse_url (some m.peer_url)) _ gs h in
    let (rest, read, h'') = bind-some (go_members ms) _ gs h' in
    sym (ap length (some-inj h'')) ∙ ap suc (length-go_members ms rest read)

read_cluster-ok :
    (r : Status × ℕ × List Member) (gs : List GoMember)
    → read_cluster r ≡ some gs
    → (r.0 ≡ ok) × (length gs ≡ length r.2)
unfolding read_cluster
read_cluster-ok (ok, count, members) gs h = elim (Bool-cases (count == 0)) [
  | inl empty ↦
      (let no : read_cluster (ok, count, members) ≡ none = rw (read_cluster, empty) refl in cc)
  | inr some_left ↦
      (let same : read_cluster (ok, count, members) ≡ go_members members =
          rw (read_cluster, some_left) refl in
        (refl, length-go_members members gs (sym same ∙ h)))
]
read_cluster-ok (fail, count, members) gs h = cc h
read_cluster-ok (raised, count, members) gs h = cc h
read_cluster-ok (fault, count, members) gs h = cc h

then_try-ok : (s t : Status) → (s then_try t) ≡ ok → (s ≡ ok) × (t ≡ ok)
then_try-ok ok t h = (refl, h)
then_try-ok fail t h = cc h
then_try-ok raised t h = cc h
then_try-ok fault t h = cc h

start-loaded : (go : Answers) (p : Process) → must (go_start go p) ≡ ok → go_is_loaded p ≡ true
unfolding go_start
start-loaded go p h = elim (Bool-cases (go_is_loaded p)) [
  | inl e ↦ e
  | inr e ↦ (let no : must (go_start go p) ≡ raised = rw (go_start, e) refl in cc)
]

start_loops-ok :
    (world : World) (r : Status × Process)
    → (start_loops world r).0 ≡ ok
    → (r.0 ≡ ok) × (go_is_loaded (start_loops world r).1 ≡ true) × ((start_loops world r).1 ≡ r.1)
unfolding start_loops
start_loops-ok world (ok, p) h =
    (refl, start-loaded world.go p (then_try-ok (must (go_start world.go p)) _ h).0, refl)
start_loops-ok world (fail, p) h = cc h
start_loops-ok world (raised, p) h = cc h
start_loops-ok world (fault, p) h = cc h

then_init-ok :
    (world : World) (init_config : GoConfig → ℕ) (v : Settings) (r : Status × Process)
    → (then_init world init_config v r).0 ≡ ok
    → (init_from_gucs world init_config v r.1).0 ≡ ok
unfolding then_init
then_init-ok world init_config v (ok, p) h = h
then_init-ok world init_config v (fail, p) h = cc h
then_init-ok world init_config v (raised, p) h = cc h
then_init-ok world init_config v (fault, p) h = cc h

not_initialized :
    (go : Answers) (p : Process) → go.is_initialized ≡ 0 → (go_is_initialized go p == 0) ≡ true
unfolding go_is_initialized
not_initialized go p h = ground (arith, h)

if_valid-ok : (s : Status) (p : Process) (r : Status × Process) → (if_valid s p r).0 ≡ ok → s ≡ ok
unfolding if_valid
if_valid-ok ok p r h = refl
if_valid-ok fail p r h = cc h
if_valid-ok raised p r h = cc h
if_valid-ok fault p r h = cc h

init-ok :
    (world : World) (init_config : GoConfig → ℕ) (v : Settings) (p : Process)
    → world.go.is_initialized ≡ 0
    → (init_from_gucs world init_config v p).0 ≡ ok
    → (validate_configuration v.guc ≡ ok) × (c : GoConfig) × (config_of v ≡ some c)
unfolding init_from_gucs
init-ok world init_config v p off h = elim (Option-cases (config_of v)) [
  | inl e ↦
      (let no : (init_from_gucs world init_config v p).0 ≡ raised =
          rw (init_from_gucs, not_initialized world.go p off, e) refl in
        cc)
  | inr (c, e) ↦
      (let same : (init_from_gucs world init_config v p).0
            ≡ (if_valid (validate_configuration v.guc) p
                (start_go world init_config c (loaded world p))).0 =
          rw (init_from_gucs, not_initialized world.go p off, e) refl in
        (if_valid-ok (validate_configuration v.guc) p _ (sym same ∙ h), c, e))
]

some-config :
    (v : Settings) (members : List GoMember) (host : CString) (port : ℕ) (token : CString)
    → (is_unset (some token) || is_bad_peer (host, port)) ≡ false
    → tested_config v members (host, port) token
      ≡ some (record {
        node_id = 1;
        name = v.name;
        is_new = is_new_cluster v.guc.initial_cluster_state;
        cluster_id = token;
        cluster_members = members;
        listen_peer_host = host;
        listen_peer_port = port;
        listen_client = parse_url v.listen_client_urls;
        advertise_client = parse_url v.advertise_client_urls;
        advertise_peer = parse_url v.initial_advertise_peer_urls;
        data_dir = data_dir_of v.name v.data_dir;
      })
unfolding tested_config
some-config v members host port token passed = rw (tested_config, passed) refl

tested-config :
    (v : Settings) (members : List GoMember) (peer : CString × ℕ) (token : CString) (c : GoConfig)
    → tested_config v members peer token ≡ some c
    → (is_bad_peer (c.listen_peer_host, c.listen_peer_port) ≡ false) × (c.cluster_members ≡ members)
unfolding tested_config
tested-config v members (host, port) token c h =
    elim (Bool-cases (is_unset (some token) || is_bad_peer (host, port))) [
      | inl refused ↦
          (let no : tested_config v members (host, port) token ≡ none =
              rw (tested_config, refused) refl in
            cc)
      | inr passed ↦
          (let e = some-inj (sym (some-config v members host port token passed) ∙ h) in
            (rw (← e) (or-right _ _ passed), rw (← e) refl))
    ]
  where
    or-right : (a b : Bool) → (a || b) ≡ false → b ≡ false
    or-right true b q = cc q
    or-right false b q = q

config-IsRead : (v : Settings) (c : GoConfig) → config_of v ≡ some c → IsRead v c
unfolding config_of
config-IsRead v c h =
    let (members, m, h1) =
      bind-some (read_cluster (parse_initial_cluster v.guc.initial_cluster)) _ c h in
    let (peer, q, h2) = bind-some (parse_url v.guc.listen_peer_urls) _ c h1 in
    let (token, t, h3) = bind-some v.guc.initial_cluster_token _ c h2 in
    let (good, same) = tested-config v members peer token c h3 in
    let (read, all) = read_cluster-ok (parse_initial_cluster v.guc.initial_cluster) members m in
    record { made = h; cluster_read = read; all_members = ap length same ∙ all; good_peer = good }

begin-ok :
    (world : World) (init_config : GoConfig → ℕ) (v : Settings) (p : Process) (w : Worker)
    (s : Status)
    → s ≡ ok
    → (elim s as (λ _. Worker) [ ok ↦ start_worker v.name w | _ ↦ w ]).status ≡ running
unfolding start_worker
begin-ok world init_config v p w s h = rw h refl

-- A worker that reaches its loop, in a process whose Go library was not yet initialised, has a
-- configuration that passes the validation and is read without an error: as many members as the list names, and a
-- peer address with a host and a port from 1024 to 65535. Its process has the Go library, and its status is
-- running.
pub begin_main-IsRead :
    (world : World) (init_config : GoConfig → ℕ) (v : Settings) (p : Process) (w : Worker)
    → world.go.is_initialized ≡ 0
    → (begin_main world init_config v p w).0 ≡ ok
    → (validate_configuration v.guc ≡ ok)
      × ((c : GoConfig) × IsRead v c)
      × (go_is_loaded (begin_main world init_config v p w).1 ≡ true)
      × ((begin_main world init_config v p w).2.status ≡ running)
unfolding begin_main
begin_main-IsRead world init_config v p w off h =
    let (started, up, same) =
      start_loops-ok world (then_init world init_config v (loaded world p)) h in
    let (valid, c, made) =
      init-ok world init_config v (loaded world p).1 off
        (then_init-ok world init_config v (loaded world p) started) in
    (valid, (c, config-IsRead v c made), up, begin-ok world init_config v p w _ h)
