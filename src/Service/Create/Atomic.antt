-- ===== src/Service/Create/Atomic.antt =====
-- internal/service/change.go: what `create` leaves behind.
use go_prod_change_registry.Prelude.{
  String, Bool, some, if◌then◌else◌, ◌==◌, ◌≡◌, ◌≢◌, refl, inl, inr, eq-false_of_ne,
}
use go_prod_change_registry.Model.{Time, ChangeEvent, CreateChangeRequest}
use go_prod_change_registry.Errors.{Error, Result, ok, err, duplicate, Result-cases}
use go_prod_change_registry.Store.Tables.{Tables}
use go_prod_change_registry.Store.Tables.Invariant.{IsValid}
use go_prod_change_registry.Store.Scan.{get_by_external_id}
use go_prod_change_registry.Store.Write as Store
use go_prod_change_registry.Store.Write.Atomic.{create_atomic, create-IsValid}
use go_prod_change_registry.Service.Validate.{validate_create_request}
use go_prod_change_registry.Service.Create.{
  Action, ◌>>=◌, ◌>>◌, lift, reading, check_external_id, require_parent, new_event, create_with,
  refuse_existing,
}

abbrev pub IsAtomic {ℓ} : {A : Type ℓ} → Action A → Type ℓ
IsAtomic m = (db : Tables) (e : Error) → (m db).0 ≡ err e → (m db).1 ≡ db

abbrev pub Keeps {ℓ} : {A : Type ℓ} → Action A → Type 0
Keeps m = (db : Tables) → IsValid db → IsValid (m db).1

module _ {ℓ κ} {A : Type ℓ} {B : Type κ} where
  -- A query in front of an atomic action.
  pub reading-IsAtomic :
      (q : Tables → Result A) (f : A → Action B)
      → ((a : A) → IsAtomic (f a))
      → IsAtomic (reading q >>= f)
  reading-IsAtomic q f atomic db e h = elim (Result-cases (q db)) [
    | inl (a, done) ↦ rw done (atomic a db e (rw done at h))
    | inr (x, failed) ↦ rw failed refl
  ]

  pub reading-Keeps :
      (q : Tables → Result A) (f : A → Action B) → ((a : A) → Keeps (f a)) → Keeps (reading q >>= f)
  reading-Keeps q f keeps db v = elim (Result-cases (q db)) [
    | inl (a, done) ↦ rw done (keeps a db v)
    | inr (x, failed) ↦ rw failed v
  ]

  -- A query that succeeds hands its value on.
  pub reading_passes :
      (q : Tables → Result A) (f : A → Action B) (db : Tables) (a : A)
      → q db ≡ ok a
      → (reading q >>= f) db ≡ f a db
  reading_passes q f db a done = rw done refl

  -- A query that fails ends the action.
  pub reading_fails :
      (q : Tables → Result A) (f : A → Action B) (db : Tables) {e : Error}
      → q db ≡ err e
      → (reading q >>= f) db ≡ (err e, db)
  reading_fails q f db failed = rw failed refl

module _ (id : String) (now : Time) where
  -- Whatever the request and the tables, a `create` of the service that returns an error, be it of
  -- the validation, of the parent, of an external id that is taken or of the store, leaves all three
  -- tables as they were.
  pub create_with_atomic :
      (req : CreateChangeRequest) (enforce : Bool) (db : Tables) (e : Error)
      → (create_with id now req enforce db).0 ≡ err e
      → (create_with id now req enforce db).1 ≡ db
  unfolding create_with check_external_id require_parent
  create_with_atomic req enforce = reading-IsAtomic _ _ (λ _.
      reading-IsAtomic (λ _. validate_create_request req enforce) _
        (λ canonical. reading-IsAtomic _ _ (λ _. create_atomic (new_event id now req canonical))))

  -- The service's `create` keeps the constraints of the schema, whatever it returns.
  pub create_with-IsValid :
      (req : CreateChangeRequest) (enforce : Bool) (db : Tables)
      → IsValid db
      → IsValid (create_with id now req enforce db).1
  unfolding create_with check_external_id require_parent
  create_with-IsValid req enforce = reading-Keeps _ _ (λ _.
      reading-Keeps (λ _. validate_create_request req enforce) _
        (λ canonical. reading-Keeps _ _ (λ _. create-IsValid (new_event id now req canonical))))

  -- A request whose external id is taken gets the event that has it beside the duplicate sentinel,
  -- even where the request would no longer pass the validation, and the tables stay as they were.
  pub create_with_retry :
      (req : CreateChangeRequest) (enforce : Bool) (db : Tables) (event : ChangeEvent)
      → req.external_id ≢ ""
      → get_by_external_id req.external_id db ≡ some event
      → create_with id now req enforce db ≡ (err (duplicate (some event)), db)
  unfolding create_with check_external_id
  create_with_retry req enforce db event named found =
      reading_fails
        (λ db.
          if req.external_id == ""
          then ok tt
          else refuse_existing (get_by_external_id req.external_id db))
        (λ _. lift (validate_create_request req enforce) >>= λ canonical.
          require_parent req.parent_id >> Store.create (new_event id now req canonical))
        db (rw (eq-false_of_ne req.external_id "" named, found) refl)
