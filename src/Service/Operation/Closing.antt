-- ===== src/Service/Operation/Closing.antt =====
-- internal/service/change.go: an operation that is open is closed by `CloseOperationAs`.
use Prim.Native.String.append
use go_prod_change_registry.Prelude.{
  String, Bool, true, false, not, ◌&&◌, List, [], ◌∷◌, none, some, if◌then◌else◌, ◌==◌, any, find,
  ◌≡◌, ◌≢◌, refl, sym, ap, ◌∙◌, arith, eq-false_of_ne, Bool-cases, inl, inr,
}
use go_prod_change_registry.Dict.{insert}
use go_prod_change_registry.Dict.Laws.{IsMap, lookup-insert_self, insert-IsMap}
use go_prod_change_registry.Model.{Time, Tags, UserIdentity, ChangeEvent, CreateChangeRequest}
use go_prod_change_registry.Model.OperationState
use go_prod_change_registry.Errors.{
  Result, ok, err, parent_not_found, user_name_required, event_not_found,
}
use go_prod_change_registry.Store.Tables.{EventRow, Tables, column_is, has_id, same_external_id}
use go_prod_change_registry.Store.Tables.Invariant.{IsValid, no_tags_of_unknown}
use go_prod_change_registry.Store.Scan.{nullable_string, scan_found, get_by_id, get_by_external_id}
use go_prod_change_registry.Store.Current.{correlated}
use go_prod_change_registry.Store.Write as Store
use go_prod_change_registry.Store.Write.{stored_event}
use go_prod_change_registry.Store.Write.Atomic.{
  Insertable, created_tables, create_of_Insertable, get_by_id-created_tables,
}
use go_prod_change_registry.Service.Validate.{validate_create_request, validate_links}
use go_prod_change_registry.Service.Identity.{operation_identity, operation_close_external_id}
use go_prod_change_registry.Service.Create.{
  create_with, new_event, check_external_id, require_parent, get_event, refuse_existing, checked,
  require_found, Action, ◌>>=◌, ◌>>◌, lift,
}
use go_prod_change_registry.Service.Create.Atomic.{reading_passes}
use go_prod_change_registry.Service.Operation.{
  operation_state, close_request, close_operation, identified, accept_duplicate,
}
use go_prod_change_registry.Service.Operation.Close.{close_start, identified_as, when_open}
use go_prod_change_registry.Service.Operation.State.{operation_state_lem}
use go_prod_change_registry.Service.Operation.Representative.{has_phase}
use go_prod_change_registry.Service.Operation.EndTags.{end_tags-Names}
use go_prod_change_registry.Service.Operation.Ended.{has_phase-created}

find-none :
    (rows : List EventRow) (x : String) (db : Tables)
    → scan_found db (find (λ r. column_is r.external_id x) rows) ≡ none
    → any (λ r. column_is r.external_id x) rows ≡ false
find-none [] x db h = refl
find-none (r ∷ rows) x db h = elim (Bool-cases (column_is r.external_id x)) [
  | inl same ↦ cc (rw same at h)
  | inr other ↦ rw other (find-none rows x db (rw other at h))
]

nullable_free :
    (x : String) (db : Tables)
    → x ≢ ""
    → get_by_external_id x db ≡ none
    → same_external_id (nullable_string x) db.events ≡ false
unfolding get_by_external_id nullable_string
nullable_free x db full h = rw (eq-false_of_ne x "" full) (find-none db.events x db h)

external_id-ne-nil :
    (sha256_hex : String → String) (event_type key value : String)
    → operation_close_external_id sha256_hex event_type key value ≢ ""
unfolding operation_close_external_id
external_id-ne-nil sha256_hex event_type key value h = cc (sym (append.cons "p" "cr:close:" _) ∙ h)

module _ (id : String) (now : Time) where
  -- A request under an external id that is not taken, with no parent, that validates, goes to the
  -- store.
  create_with_new :
      (req : CreateChangeRequest) (enforce : Bool) (canonical : String × Tags) (db : Tables)
      → get_by_external_id req.external_id db ≡ none
      → validate_create_request req enforce ≡ ok canonical
      → req.parent_id ≡ ""
      → create_with id now req enforce db ≡ Store.create (new_event id now req canonical) db
  unfolding create_with check_external_id require_parent
  create_with_new req enforce canonical db free valid top =
      reading_passes
        (λ x.
          if req.external_id == ""
          then ok tt
          else refuse_existing (get_by_external_id req.external_id x))
        (λ _. lift (validate_create_request req enforce) >>= store_new) db tt
        (not_there (req.external_id == ""))
      ∙ reading_passes (λ _. validate_create_request req enforce) store_new db canonical valid
      ∙ reading_passes require_top (λ _. Store.create (new_event id now req canonical)) db tt
          top_passes
    where
      store_new : String × Tags → Action ChangeEvent
      store_new canonical =
          require_parent req.parent_id >> Store.create (new_event id now req canonical)

      require_top : Tables → Result (Unit {0})
      require_top db =
          if req.parent_id == ""
          then ok tt
          else checked (require_found parent_not_found (get_by_id req.parent_id db))

      top_passes : require_top db ≡ ok tt
      top_passes = rw top refl

      not_there :
          (b : Bool)
          → (if b then ok tt else refuse_existing (get_by_external_id req.external_id db)) ≡ ok tt
      not_there true = refl
      not_there false = rw free refl

module _ (sha256_hex : String → String) (id : String) (now : Time) (start : ChangeEvent)
    (user : UserIdentity) (description key value : String) (db : Tables) where
  abbrev end_request : CreateChangeRequest
  end_request = close_request sha256_hex start user description key value

  abbrev end_tags : Tags
  end_tags = insert "phase" "end" (insert key value start.tags)

  abbrev end_event : ChangeEvent
  end_event = new_event id now end_request (start.event_type, end_tags)

  end_request-valid :
      user.name ≢ ""
      → start.event_type ≢ ""
      → validate_create_request end_request false ≡ ok (start.event_type, end_tags)
  unfolding validate_create_request close_request validate_links
  end_request-valid named typed =
      rw (eq-false_of_ne user.name "" named, eq-false_of_ne start.event_type "" typed) refl

  end_event-Insertable :
      get_by_external_id (operation_close_external_id sha256_hex start.event_type key value) db
        ≡ none
      → has_id id db.events ≡ false
      → Insertable end_event db
  unfolding new_event close_request nullable_string
  end_event-Insertable free fresh = record {
    fresh = fresh;
    new_external =
        nullable_free (operation_close_external_id sha256_hex start.event_type key value) db
          (external_id-ne-nil sha256_hex start.event_type key value) free;
    parent = refl;
  }

  end_event-committed :
      IsValid db
      → IsMap start.tags
      → user.name ≢ ""
      → start.event_type ≢ ""
      → get_by_external_id (operation_close_external_id sha256_hex start.event_type key value) db
        ≡ none
      → has_id id db.events ≡ false
      → create_with id now end_request false db
        ≡ (ok (stored_event end_event), created_tables end_event db)
  unfolding close_request new_event
  end_event-committed v m named typed free fresh =
      create_with_new id now end_request false (start.event_type, end_tags) db free
        (end_request-valid named typed) refl
      ∙ create_of_Insertable end_event db v
          (insert-IsMap "phase" "end" (insert key value start.tags)
            (insert-IsMap key value start.tags m))
          (end_event-Insertable free fresh)

  close_operation-committed :
      (event_id : String)
      → user.name ≢ ""
      → get_by_id event_id db ≡ some start
      → operation_identity start ≡ some (key, value)
      → operation_state start db ≡ ok OperationState.opened
      → create_with id now end_request false db
        ≡ (ok (stored_event end_event), created_tables end_event db)
      → close_operation sha256_hex id now event_id user description db
        ≡ (ok (some (stored_event end_event)), created_tables end_event db)
  unfolding close_operation get_event
  close_operation-committed event_id named found identity open_now committed =
      reading_passes (λ _. if user.name == "" then err user_name_required else ok tt)
        (λ _. get_event event_id >>= close_start sha256_hex id now user description) db tt
        (rw (eq-false_of_ne user.name "" named) refl)
      ∙ reading_passes (λ db. require_found event_not_found (get_by_id event_id db))
          (close_start sha256_hex id now user description) db start (rw found refl)
      ∙ reading_passes (λ _. identified (operation_identity start))
          (identified_as sha256_hex id now user description start) db (key, value)
          (rw identity refl)
      ∙ reading_passes (operation_state start)
          (when_open sha256_hex id now user description start (key, value)) db OperationState.opened
          open_now
      ∙ ap (λ (p : Result ChangeEvent × Tables). (accept_duplicate p.0, p.1)) committed

  end_event-read :
      IsValid db
      → IsMap start.tags
      → has_id id db.events ≡ false
      → get_by_id id (created_tables end_event db) ≡ some (stored_event end_event)
  unfolding new_event close_request
  end_event-read v m fresh =
      get_by_id-created_tables end_event db v
        (insert-IsMap "phase" "end" (insert key value start.tags)
          (insert-IsMap key value start.tags m))
        fresh

  ended-closed :
      (started ended : Bool)
      → ended ≡ true
      → (if started && not ended then OperationState.opened else OperationState.closed)
        ≡ OperationState.closed
  ended-closed started ended h = ground (arith, h)

  operation_state-created :
      IsValid db
      → start.event_type ≢ ""
      → operation_identity start ≡ some (key, value)
      → has_id id db.events ≡ false
      → operation_state start (created_tables end_event db) ≡ ok OperationState.closed
  unfolding new_event close_request
  operation_state-created v typed identity fresh =
      operation_state_lem start key value (created_tables end_event db) identity typed
      ∙ ap ok (
          ended-closed
            (has_phase "start" start.event_type key value
              (correlated (created_tables end_event db)))
            _
            (has_phase-created end_event db
              (no_tags_of_unknown id db.events db.tags fresh v.tags_known) refl key value
              (end_tags-Names start key value identity)
              (lookup-insert_self "phase" "end" (insert key value start.tags))))

-- An open operation is closed by a named user: on valid tables, where the start event is there with a
-- type and its tags are a map, the end event's external id is not taken and its own id is fresh, the
-- close returns an event that is then there under that id, and `OperationState` is closed afterwards.
pub close_operation_closes :
    (sha256_hex : String → String) (id : String) (now : Time) (start : ChangeEvent)
    (user : UserIdentity) (event_id description key value : String) (db : Tables)
    → IsValid db
    → IsMap start.tags
    → user.name ≢ ""
    → start.event_type ≢ ""
    → get_by_id event_id db ≡ some start
    → operation_identity start ≡ some (key, value)
    → operation_state start db ≡ ok OperationState.opened
    → get_by_external_id (operation_close_external_id sha256_hex start.event_type key value) db
      ≡ none
    → has_id id db.events ≡ false
    → (e : ChangeEvent) × ((close_operation sha256_hex id now event_id user description db).0
        ≡ ok (some e))
      × (get_by_id id (close_operation sha256_hex id now event_id user description db).1 ≡ some e)
      × (operation_state start (close_operation sha256_hex id now event_id user description db).1
          ≡ ok OperationState.closed)
close_operation_closes sha256_hex id now start user event_id description key value db v m named
      typed found identity open_now free fresh =
    let event = end_event sha256_hex id now start user description key value db in
    let committed =
      close_operation-committed sha256_hex id now start user description key value db event_id named
        found identity open_now
        (end_event-committed sha256_hex id now start user description key value db v m named typed
          free fresh) in
    (
      stored_event event,
      rw committed refl,
      rw committed (end_event-read sha256_hex id now start user description key value db v m fresh),
      rw committed (
          operation_state-created sha256_hex id now start user description key value db v typed
            identity fresh),
    )
