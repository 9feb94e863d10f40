-- ===== src/Kv/Replica.antt =====
-- Replaying one log at two replicas with `pgraft_kv_apply_log_entry` of src/pgraft_kv.c.
use pgraft.Base.{
  ℕ, ◌+◌, ◌≡◌, ◌∙◌, refl, sym, ap, Option, none, some, List, [], ◌∷◌, Status, ok, fail, raised,
  fault, if_holds,
}
use pgraft.Kv.Store.{Store, put_store, delete_store}
use pgraft.Kv.Untimed.{untimed, put-untimed, delete-untimed}
use pgraft.Kv.Service.{
  Io, Disk, Kv, save_to_disk, persist, put, delete, OpType, kv_put, kv_delete, kv_get, LogEntry,
  dispatch, apply_log_entry,
}

-- The committed entries from index `i` on, applied in order: the result of each, and the end.
unfoldable pub apply_all : (ℕ → Io) → ℕ → List LogEntry → Kv → List Status × Kv
apply_all io i [] k = ([], k)
apply_all io i (e ∷ log) k =
    let (s, k') = apply_log_entry (io i) (some e) i k in
    let (ss, k'') = apply_all io (i + 1) log k' in (s ∷ ss, k'')

abbrev untimed_store : Option Store → Option Store
untimed_store none = none
untimed_store (some st) = some (untimed st)

-- The store of a replica without the timestamps.
abbrev pub replicated : Kv → Option Store
replicated k = untimed_store k.store

pub store-save :
    (io : Io) (o : Option Store) (d : Disk)
    → (save_to_disk io (record { store = o; disk = d })).1.store ≡ o
unfolding save_to_disk
store-save io none d = refl
store-save io (some st) d =
    if_holds (λ (r : Status × Kv). r.1.store ≡ some st) io.opens
      (if_holds (λ (r : Status × Kv). r.1.store ≡ some st) io.transfers refl refl) refl

-- The result and the store, as far as replicas agree on them.
abbrev outcome : Status × Kv → Status × Option Store
outcome r = (r.0, replicated r.1)

abbrev stored : Status × Store → Status × Option Store
stored r = (r.0, some r.1)

outcome-persist :
    (io : Io) (s : Status) (st : Store) (k : Kv)
    → outcome (persist io (s, st) k) ≡ (s, some (untimed st))
unfolding persist
outcome-persist io ok st k = ap (λ o. (ok, untimed_store o)) (store-save io (some st) k.disk)
outcome-persist io fail st k = refl
outcome-persist io raised st k = refl
outcome-persist io fault st k = refl

-- One entry applied to a store that holds no timestamps.
abbrev untimed_step : OpType → LogEntry → ℕ → Option Store → Status × Option Store
untimed_step kv_put e i none = (raised, none)
untimed_step kv_delete e i none = (raised, none)
untimed_step kv_get e i o = (fail, o)
untimed_step kv_put e i (some st) = stored (put_store 0 e.key e.value i st)
untimed_step kv_delete e i (some st) = stored (delete_store 0 e.key i st)

outcome-dispatch :
    (io : Io) (t : OpType) (e : LogEntry) (i : ℕ) (o : Option Store) (d : Disk)
    → outcome (dispatch io e i (record { store = o; disk = d }) t)
      ≡ untimed_step t e i (untimed_store o)
unfolding dispatch put delete
outcome-dispatch io kv_put e i none d = refl
outcome-dispatch io kv_delete e i none d = refl
outcome-dispatch io kv_get e i none d = refl
outcome-dispatch io kv_get e i (some st) d = refl
outcome-dispatch io kv_put e i (some st) d =
    let (s, st') = put_store io.now e.key e.value i st in
    outcome-persist io s st' _ ∙ sym (ap stored (put-untimed io.now i st e.key e.value))
outcome-dispatch io kv_delete e i (some st) d =
    let (s, st') = delete_store io.now e.key i st in
    outcome-persist io s st' _ ∙ sym (ap stored (delete-untimed io.now i st e.key))

outcome-apply :
    (io : Io) (e : LogEntry) (i : ℕ) (k : Kv)
    → outcome (apply_log_entry io (some e) i k) ≡ untimed_step e.op_type e i (replicated k)
unfolding apply_log_entry
outcome-apply io e i k = outcome-dispatch io e.op_type e i k.store k.disk

-- Two replicas whose stores agree but for the timestamps, and that apply the same entries from
-- the same index, get the same result for every entry and end with stores that agree but for the
-- timestamps, whatever their clocks say and whatever becomes of their files.
pub apply_all-agree :
    (log : List LogEntry) (i : ℕ) (io io' : ℕ → Io) (k k' : Kv)
    → replicated k ≡ replicated k'
    → ((apply_all io i log k).0 ≡ (apply_all io' i log k').0)
      × (replicated (apply_all io i log k).1 ≡ replicated (apply_all io' i log k').1)
unfolding apply_all
apply_all-agree [] i io io' k k' h = (refl, h)
apply_all-agree (e ∷ log) i io io' k k' h =
    let one : outcome (apply_log_entry (io i) (some e) i k)
        ≡ outcome (apply_log_entry (io' i) (some e) i k') =
      outcome-apply (io i) e i k
      ∙ ap (untimed_step e.op_type e i) h
      ∙ sym (outcome-apply (io' i) e i k') in
    let rest =
      apply_all-agree log (i + 1) io io' (apply_log_entry (io i) (some e) i k).1
        (apply_log_entry (io' i) (some e) i k').1 (ap (λ r. r.1) one) in
    (cc (ap (λ r. r.0) one, rest.0), rest.1)
