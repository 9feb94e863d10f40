-- ===== src/Apply/Stores.antt =====
-- What applying a key/value operation does to the store, by `pgraft_apply_kv_operation` of
-- src/pgraft_apply.c.
use pgraft.Base.{
  ℕ, ◌≡◌, ◌∙◌, refl, ap, inl, inr, Bool, true, false, not, Option, none, some, if◌then◌else◌,
  Bool-cases, Option-cases, CString, text_eq, Status, ok, fail, raised,
}
use pgraft.Kv.Store.{Store, put_store, delete_store}
use pgraft.Kv.View.{view, IsValid, next_version, is_unbound}
use pgraft.Kv.Put.{put_accepts, put-status, put-view}
use pgraft.Kv.Delete.{delete-view}
use pgraft.Kv.Service.{Io, Disk, Kv, OpType, put, delete, put_local, delete_local}
use pgraft.Kv.Durable.{view_of}
use pgraft.Kv.Client.{server, persist-result}
use pgraft.Json.Values.{JsonC}
use pgraft.Json.Operations.{Operation, parsed, parse_kv_operation}
use pgraft.Apply.Operations.{checked, apply_operation, apply_kv_operation}

-- Whether the store takes an operation.
abbrev pub kv_accepts : Operation → Store → OpType → Bool
kv_accepts o st OpType.kv_put = elim o.value [
  | none ↦ false
  | some value ↦ put_accepts o.key value st
]
kv_accepts o st OpType.kv_delete = not (is_unbound (view st o.key))
kv_accepts o st OpType.kv_get = false

-- The binding that an operation gives its key.
abbrev pub given : Operation → Store → OpType → Option (CString × ℕ)
given o st OpType.kv_put = elim o.value [
  | none ↦ none
  | some value ↦ some (value, next_version (view st o.key))
]
given o st OpType.kv_delete = none
given o st OpType.kv_get = none

-- What every key is bound to behind an operation.
abbrev pub bound_after : Operation → Store → CString → Option (CString × ℕ)
bound_after o st j =
    if kv_accepts o st o.op_type
    then if text_eq o.key j then given o st o.op_type else view st j
    else view st j

abbrev pub Effect : Bool → (CString → Option (CString × ℕ)) → Status × Kv → Type 0
Effect accepted bound r =
    (r.0 ≡ (if accepted then ok else raised)) × ((j : CString) → view_of r.1.store j ≡ bound j)

Effect-of :
    (accepted : Bool) (refused : Status) (bound : CString → Option (CString × ℕ)) (r : Status × Kv)
    (st' : Store)
    → checked refused ≡ raised
    → r.0 ≡ (if accepted then ok else refused)
    → r.1.store ≡ some st'
    → ((j : CString) → view st' j ≡ bound j)
    → Effect accepted bound (checked r.0, r.1)
Effect-of true refused bound r st' e s kept h =
    (ap checked s, λ j. ap (λ o. view_of o j) kept ∙ h j)
Effect-of false refused bound r st' e s kept h =
    (ap checked s ∙ e, λ j. ap (λ o. view_of o j) kept ∙ h j)

module _ (io : Io) (o : Operation) (st : Store) (d : Disk) (v : IsValid st) where
  put-Effect :
      (value : CString)
      → Effect
          (put_accepts o.key value st)
          (λ j.
            if put_accepts o.key value st
            then if text_eq o.key j then some (value, next_version (view st o.key)) else view st j
            else view st j)
          (let (s, k') = put_local io (some o.key) (some value) (server st d) in (checked s, k'))
  unfolding put_local put
  put-Effect value =
      let (status, same) = put-status io.now o.key value 0 st in
      let (s, kept) = persist-result io (put_store io.now o.key value 0 st) (server st d) in
      Effect-of (put_accepts o.key value st) raised _
        (put io (some o.key) (some value) 0 (server st d)) _ refl (s ∙ status) kept
        (λ j. elim (Bool-cases (put_accepts o.key value st)) [
          | inl taken ↦ rw taken (
              put-view io.now o.key value 0 st v (status ∙ ap (λ b. if b then ok else raised) taken)
                j)
          | inr refused ↦ rw refused (ap (λ t. view t j) (same refused))
        ])

  delete-Effect :
      Effect
        (not (is_unbound (view st o.key)))
        (λ j.
          if not (is_unbound (view st o.key))
          then if text_eq o.key j then none else view st j
          else view st j)
        (let (s, k') = delete_local io (some o.key) (server st d) in (checked s, k'))
  unfolding delete_local delete
  delete-Effect =
      let (status, gone, same) = delete-view io.now o.key 0 st v in
      let (s, kept) = persist-result io (delete_store io.now o.key 0 st) (server st d) in
      Effect-of (not (is_unbound (view st o.key))) fail _ (delete io (some o.key) 0 (server st d)) _
        refl
        (s ∙ elim (Option-cases (view st o.key)) [
          | inl e ↦ rw e (status ∙ rw e refl)
          | inr (b, e) ↦ rw e (status ∙ rw e refl)
        ])
        kept
        (λ j. elim (Option-cases (view st o.key)) [
          | inl e ↦ rw e (ap (λ t. view t j) (same e))
          | inr (b, e) ↦ rw e (gone j)
        ])

  operation-Effect :
      (t : OpType) (value : Option CString)
      → o.value ≡ value
      → Effect
          (kv_accepts o st t)
          (λ j.
            if kv_accepts o st t
            then if text_eq o.key j then given o st t else view st j
            else view st j)
          (apply_operation io o t (server st d))
  unfolding apply_operation
  operation-Effect OpType.kv_put none e = rw e (refl, λ j. refl)
  operation-Effect OpType.kv_put (some value) e = rw e (put-Effect value)
  operation-Effect OpType.kv_delete value e = delete-Effect
  operation-Effect OpType.kv_get value e = (refl, λ j. refl)

-- Applying an operation that reads as `o` to a valid store either succeeds and does what `o` means,
-- a PUT binding its key to the value at the next version and a DELETE unbinding a bound key, or
-- raises an error and changes no binding. It succeeds exactly when the PUT has a value and the store takes
-- it, or the key of the DELETE is bound.
pub apply-Effect :
    (lib : JsonC) (io : Io) (text : CString) (o : Operation) (st : Store) (d : Disk)
    → IsValid st
    → parse_kv_operation lib text ≡ parsed o
    → Effect
        (kv_accepts o st o.op_type)
        (bound_after o st)
        (apply_kv_operation lib io text (server st d))
unfolding apply_kv_operation
apply-Effect lib io text o st d v read =
    rw (apply_kv_operation, read) (operation-Effect io o st d v o.op_type o.value refl)
