-- ===== src/Apply/Replayed.antt =====
-- A PUT on its way through src/pgraft_json.c, src/pgraft_apply.c and src/pgraft_kv.c.
use pgraft.Base.{
  ℕ, ◌≡◌, ◌∙◌, refl, ap, some, [], ◌∷◌, ◌++◌, arith, true, if◌then◌else◌, get_or, length, CString,
  Lacks, Status, ok, raised,
}
use pgraft.Kv.Store.{Store}
use pgraft.Kv.View.{view, IsValid, next_version}
use pgraft.Kv.Put.{put_accepts, put-status}
use pgraft.Kv.Service.{Io, Disk, OpType, put, get, put_local}
use pgraft.Kv.Client.{server, answer, buffer_size, get-put, put-result}
use pgraft.Json.Values.{Json, JsonC}
use pgraft.Json.Operations.{operation_object, create_kv_operation}
use pgraft.Json.Entries.{parse-create}
use pgraft.Worker.State.{Worker}
use pgraft.Apply.Entries.{brace, until_nul}
use pgraft.Apply.Operations.{
  checked, apply_operation, apply_kv_operation, record_applied_index, Spi, Server, record_if_ok,
  apply_entry_to_postgres, get_applied_index,
}

until_nul-append : (s rest : CString) → Lacks 0 s → until_nul (s ++ (0 ∷ rest)) ≡ s
unfolding until_nul
until_nul-append [] rest h = refl
until_nul-append (c ∷ s) rest h = rw (h.0, until_nul-append s rest h.1)

first-append : (s rest : CString) → get_or s 0 0 ≡ brace → get_or (s ++ rest) 0 0 ≡ brace
first-append [] rest h = ground (arith, h)
first-append (c ∷ s) rest h = h

module _ {DB : Type 0} (lib : JsonC) (io : Io) (spi : Spi DB) (key value client_id : CString)
    (timestamp size index : ℕ) (st : Store) (d : Disk) (w : Worker) (db : DB)
    (s rest : CString) where
  abbrev before : Server DB
  before = record { kv = server st d; worker = w; database = db }

  abbrev after : Status × Server DB
  after = apply_entry_to_postgres lib io spi index (s ++ (0 ∷ rest)) (length s) before

  module _ (valid : IsValid st) (accepted : put_accepts key value st ≡ true)
      (created : create_kv_operation lib OpType.kv_put key (some value) client_id timestamp size
        ≡ some s)
      (reads : (j : Json)
        → operation_object OpType.kv_put key (some value) client_id timestamp ≡ some j
        → lib.parse (lib.print j) ≡ some j)
      (opens : get_or s 0 0 ≡ brace) (plain : Lacks 0 s) where
    put_ok : (put io (some key) (some value) 0 (server st d)).0 ≡ ok
    put_ok =
        put-result io key value 0 st d
        ∙ (put-status io.now key value 0 st).0
        ∙ ap (λ b. if b then ok else raised) accepted

    applied :
        apply_kv_operation lib io s (server st d)
        ≡ (ok, (put io (some key) (some value) 0 (server st d)).1)
    unfolding apply_kv_operation apply_operation put_local
    applied =
        rw
          (
            apply_kv_operation,
            parse-create lib OpType.kv_put key (some value) client_id timestamp size reads s
                created,
          )
          (ap (λ t. (checked t, (put io (some key) (some value) 0 (server st d)).1)) put_ok)

    after-put : after ≡ (
      ok,
      record {
        kv = (put io (some key) (some value) 0 (server st d)).1;
        worker = record_applied_index index w;
        database = db;
      },
    )
    unfolding apply_entry_to_postgres record_if_ok
    after-put =
        rw
          (
            apply_entry_to_postgres,
            first-append s (0 ∷ rest) opens,
            until_nul-append s rest plain,
            applied,
          )
          refl

    -- The JSON that the worker makes of a PUT, delivered at an index to a server with a valid store
    -- that accepts it, is applied: the result is success, a GET of the key there answers with the
    -- value, at version 1 or one more than the key had, and the last applied index is that index. It
    -- is so where the library reads its own text of that object, which begins with a brace and holds
    -- no terminator.
    pub get-applied :
        (after.0 ≡ ok)
        × (answer (get (some key) buffer_size after.1.kv)
            ≡ (ok, some (value, next_version (view st key))))
        × (get_applied_index after.1.worker ≡ index)
    unfolding get_applied_index record_applied_index
    get-applied = rw after-put (refl, get-put io key value 0 st d valid put_ok, refl)
