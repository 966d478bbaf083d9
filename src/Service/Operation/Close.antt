-- ===== src/Service/Operation/Close.antt =====
-- internal/service/change.go: what `CloseOperationAs` leaves behind.
use go_prod_change_registry.Prelude.{String, false, Option, if◌then◌else◌, ◌==◌, ◌≡◌, arith}
use go_prod_change_registry.Model.{Time, ChangeEvent, UserIdentity}
use go_prod_change_registry.Errors.{Error, Result, ok, err, user_name_required, event_not_found}
use go_prod_change_registry.Store.Tables.{Tables}
use go_prod_change_registry.Store.Tables.Invariant.{IsValid}
use go_prod_change_registry.Store.Scan.{get_by_id}
use go_prod_change_registry.Service.Identity.{operation_identity}
use go_prod_change_registry.Service.Create.{
  Action, ◌>>=◌, ◌>>◌, require_found, lift, reading, get_event, create_with,
}
use go_prod_change_registry.Service.Create.Atomic.{
  IsAtomic, Keeps, reading-IsAtomic, reading-Keeps, create_with_atomic, create_with-IsValid,
}
use go_prod_change_registry.Service.Operation.{
  operation_state, identified, require_open, accept_duplicate, close_request, close_operation,
}

accept_duplicate-err : (r : Result ChangeEvent) (e : Error) → accept_duplicate r ≡ err e → r ≡ err e
accept_duplicate-err (ok event) e h = ground arith
accept_duplicate-err (err x) e h = ground arith

module _ (sha256_hex : String → String) (id : String) (now : Time) where
  module _ (user : UserIdentity) (description : String) where
    -- The end of a close, from the start event and its identity on.
    abbrev pub append_end : ChangeEvent → String × String → Action (Option ChangeEvent)
    append_end start identity db =
        let (r, db') =
          create_with id now (close_request sha256_hex start user description identity.0 identity.1)
            false db in
        (accept_duplicate r, db')

    abbrev pub when_open : ChangeEvent → String × String → String → Action (Option ChangeEvent)
    when_open start identity state = lift (require_open state) >> append_end start identity

    abbrev pub identified_as : ChangeEvent → String × String → Action (Option ChangeEvent)
    identified_as start identity = reading (operation_state start) >>= when_open start identity

    abbrev pub close_start : ChangeEvent → Action (Option ChangeEvent)
    close_start start = lift (identified (operation_identity start)) >>= identified_as start

    append_end-IsAtomic :
        (start : ChangeEvent) (identity : String × String) → IsAtomic (append_end start identity)
    append_end-IsAtomic start identity db e h =
        create_with_atomic id now
          (close_request sha256_hex start user description identity.0 identity.1) false db e
          (accept_duplicate-err _ e h)

    close_start-IsAtomic : (start : ChangeEvent) → IsAtomic (close_start start)
    close_start-IsAtomic start =
        reading-IsAtomic (λ _. identified (operation_identity start)) (identified_as start)
          (λ identity. reading-IsAtomic (operation_state start) (when_open start identity) (λ state.
            reading-IsAtomic (λ _. require_open state) (λ _. append_end start identity)
              (λ _. append_end-IsAtomic start identity)))

    append_end-Keeps :
        (start : ChangeEvent) (identity : String × String) → Keeps (append_end start identity)
    append_end-Keeps start identity db v =
        create_with-IsValid id now
          (close_request sha256_hex start user description identity.0 identity.1) false db v

    close_start-Keeps : (start : ChangeEvent) → Keeps (close_start start)
    close_start-Keeps start =
        reading-Keeps (λ _. identified (operation_identity start)) (identified_as start)
          (λ identity. reading-Keeps (operation_state start) (when_open start identity) (λ state.
            reading-Keeps (λ _. require_open state) (λ _. append_end start identity)
              (λ _. append_end-Keeps start identity)))

  -- Whatever the event, the caller and the tables, a close that returns an error leaves all three
  -- tables as they were.
  pub close_operation_atomic :
      (event_id : String) (user : UserIdentity) (description : String) (db : Tables) (e : Error)
      → (close_operation sha256_hex id now event_id user description db).0 ≡ err e
      → (close_operation sha256_hex id now event_id user description db).1 ≡ db
  unfolding close_operation get_event
  close_operation_atomic event_id user description =
      reading-IsAtomic (λ _. if user.name == "" then err user_name_required else ok tt)
        (λ _. get_event event_id >>= close_start user description)
        (λ _.
          reading-IsAtomic (λ db. require_found event_not_found (get_by_id event_id db))
            (close_start user description) (close_start-IsAtomic user description))

  -- A close keeps the constraints of the schema, whatever it returns.
  close_operation-IsValid :
      (event_id : String) (user : UserIdentity) (description : String) (db : Tables)
      → IsValid db
      → IsValid (close_operation sha256_hex id now event_id user description db).1
  unfolding close_operation get_event
  close_operation-IsValid event_id user description =
      reading-Keeps (λ _. if user.name == "" then err user_name_required else ok tt)
        (λ _. get_event event_id >>= close_start user description)
        (λ _.
          reading-Keeps (λ db. require_found event_not_found (get_by_id event_id db))
            (close_start user description) (close_start-Keeps user description))
