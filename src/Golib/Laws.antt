-- ===== src/Golib/Laws.antt =====
-- Loading the Go library, and the calls behind it.
use pgraft.Base.{
  ℕ, ◌≡◌, ◌∙◌, refl, sym, ap, Bool, true, false, Option, none, some, ◌>>=◌, CString, Status, ok,
  raised, fail, fault,
}
use pgraft.Golib.Loader.{
  Symbols, Process, new_process, no_symbols, Build, need, library_path, load_symbols, with_symbols,
  open_library, load_library,
}
use pgraft.Golib.Calls.{Answers, go_is_loaded, go_init, go_start}

-- The functions without which the library is not accepted.
pub record IsComplete (f : Symbols) : Type 0 where
  pub has_init : f.init ≡ true
  pub has_start : f.start ≡ true
  pub has_stop : f.stop ≡ true
  pub has_add_peer : f.add_peer ≡ true
  pub has_get_leader : f.get_leader ≡ true
  pub has_get_term : f.get_term ≡ true
  pub has_get_node_id : f.get_node_id ≡ true
  pub has_version : f.version ≡ true

need_ok :
    (b : Bool) (p : Symbols) (rest : Status × Symbols)
    → (need b p rest).0 ≡ ok
    → (b ≡ true) × (need b p rest ≡ rest) × (rest.0 ≡ ok)
need_ok true p rest h = (refl, refl, h)
need_ok false p rest h = cc h

-- Loading succeeds only with all of them, and then the pointers are the library's functions.
load_symbols-IsComplete :
    (found p : Symbols)
    → (load_symbols found p).0 ≡ ok
    → (load_symbols found p ≡ (ok, found)) × IsComplete found
unfolding load_symbols
load_symbols-IsComplete found p h =
    let (i, ei, hi) = need_ok found.init _ _ h in
    let (s, es, hs) = need_ok found.start _ _ hi in
    let (t, et, ht) = need_ok found.stop _ _ hs in
    let (a, ea, ha) = need_ok found.add_peer _ _ ht in
    let (l, el, hl) = need_ok found.get_leader _ _ ha in
    let (r, er, hr) = need_ok found.get_term _ _ hl in
    let (n, en, hn) = need_ok found.get_node_id _ _ hr in
    let (v, ev, hv) = need_ok found.version _ _ hn in
    (
      ei ∙ es ∙ et ∙ ea ∙ el ∙ er ∙ en ∙ ev,
      record {
        has_init = i;
        has_start = s;
        has_stop = t;
        has_add_peer = a;
        has_get_leader = l;
        has_get_term = r;
        has_get_node_id = n;
        has_version = v;
      },
    )

need-init :
    (b : Bool) (p : Symbols) (rest : Status × Symbols) (has : Bool)
    → p.init ≡ has
    → rest.1.init ≡ has
    → (need b p rest).1.init ≡ has
need-init true p rest has h k = k
need-init false p rest has h k = h

-- The first pointer is set whatever becomes of the others.
load_symbols-init : (found p : Symbols) → (load_symbols found p).1.init ≡ found.init
unfolding load_symbols
load_symbols-init found p = need-init found.init _ _ found.init refl (
    need-init found.start _ _ found.init refl (
      need-init found.stop _ _ found.init refl (
        need-init found.add_peer _ _ found.init refl (
          need-init found.get_leader _ _ found.init refl (
            need-init found.get_term _ _ found.init refl (
              need-init found.get_node_id _ _ found.init refl
                (need-init found.version _ _ found.init refl refl)))))))

with_symbols-raised :
    (found : Symbols) (r : Status × Symbols) (p : Process)
    → r.0 ≡ raised
    → with_symbols found r p ≡ (raised, record p { handle = some found; pointers = r.1 })
unfolding with_symbols
with_symbols-raised found (ok, pointers) p h = cc h
with_symbols-raised found (fail, pointers) p h = cc h
with_symbols-raised found (raised, pointers) p h = refl
with_symbols-raised found (fault, pointers) p h = cc h

-- A process that can call the library: it has a handle, and its pointers are the functions of a
-- complete library.
pub record IsReady (p : Process) : Type 0 where
  pub opened : p.handle ≡ some p.pointers
  pub complete : IsComplete p.pointers
  pub announced : p.shared_loaded ≡ true

with_symbols-IsReady :
    (found : Symbols) (r : Status × Symbols) (p : Process)
    → (r.0 ≡ ok → (r ≡ (ok, found)) × IsComplete found)
    → (with_symbols found r p).0 ≡ ok
    → IsReady (with_symbols found r p).1
unfolding with_symbols
with_symbols-IsReady found (ok, pointers) p complete h =
    let (same, c) = complete refl in
    record {
      opened = ap (λ (t : Status × Symbols). some t.1) (sym same);
      complete = rw (ap (λ (t : Status × Symbols). t.1) same) c;
      announced = refl;
    }
with_symbols-IsReady found (fail, pointers) p complete h = cc h
with_symbols-IsReady found (raised, pointers) p complete h = cc h
with_symbols-IsReady found (fault, pointers) p complete h = cc h

open_library-IsReady :
    (o : Option Symbols) (p : Process) → (open_library o p).0 ≡ ok → IsReady (open_library o p).1
unfolding open_library
open_library-IsReady none p h = cc h
open_library-IsReady (some found) p h =
    with_symbols-IsReady found (load_symbols found p.pointers) p
      (load_symbols-IsComplete found p.pointers) h

module _ (b : Build) (readable : CString → Bool) (opened : CString → Option Symbols)
    (setting : Option CString) (go : Answers) where
  -- The first load of a process either does not succeed, or leaves the process with a handle and
  -- with pointers to all of the functions that the loader requires, so that neither `pgraft_go_init`
  -- nor `pgraft_go_start` raises an error: each returns what the library's function answers.
  pub load-IsReady :
      (node_id port : ℕ) (address : CString)
      → (load_library b readable opened setting new_process).0 ≡ ok
      → IsReady (load_library b readable opened setting new_process).1
        × (go_init go node_id address port (load_library b readable opened setting new_process).1
            ≡ some (go.init node_id address port))
        × (go_start go (load_library b readable opened setting new_process).1 ≡ some go.start)
  unfolding load_library go_init go_start go_is_loaded
  load-IsReady node_id port address h =
      let r = open_library-IsReady (library_path b readable setting >>= opened) new_process h in
      (
        r,
        rw (go_init, go_is_loaded, r.opened, r.complete.has_init) refl,
        rw (go_start, go_is_loaded, r.opened, r.complete.has_start) refl,
      )

  -- Where the library that is found has `pgraft_go_init` but lacks a function that the loader
  -- requires, the first load raises an error, the second reports success all the same, and the
  -- process counts as loaded.
  pub load-again :
      (found : Symbols)
      → (library_path b readable setting >>= opened) ≡ some found
      → found.init ≡ true
      → (load_symbols found no_symbols).0 ≡ raised
      → ((load_library b readable opened setting new_process).0 ≡ raised)
        × ((load_library b readable opened setting
              (load_library b readable opened setting new_process).1).0
            ≡ ok)
        × (go_is_loaded (load_library b readable opened setting new_process).1 ≡ true)
  unfolding load_library open_library go_is_loaded
  load-again found at has_init lacks =
      rw (at, with_symbols-raised found (load_symbols found no_symbols) new_process lacks)
        (refl, rw (load_library, load_symbols-init found no_symbols, has_init) refl, refl)
