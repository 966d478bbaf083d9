-- ===== src/Service/Create.antt =====
-- `ChangeService.Create` and the operations that are built on it.
pub mod Atomic
pub mod LifeCycle
pub mod Checked
use go_prod_change_registry.Prelude.{
  String, Bool, true, List, [], Option, none, some, if◌then◌else◌, ◌==◌, is_empty,
}
use go_prod_change_registry.Model.{
  Time, Tags, EventLink, UserIdentity, ChangeEvent, CreateChangeRequest,
}
use go_prod_change_registry.Model.EventType
use go_prod_change_registry.Errors.{
  Error, Result, ok, err, duplicate, not_found, parent_not_found, event_not_found, links_required,
}
use go_prod_change_registry.Store.Tables.{Tables}
use go_prod_change_registry.Store.Scan.{get_by_id, get_by_external_id}
use go_prod_change_registry.Store.Write as Store
use go_prod_change_registry.Store.Toggle
use go_prod_change_registry.Service.Validate.{validate_create_request}

-- A call reads and changes the tables, and what it wrote stays written when it fails.
abbrev pub Action {ℓ} : Type ℓ → Type ℓ
Action A = Tables → Result A × Tables

infixl 5 ◌>>=◌ ◌>>◌
abbrev pub ◌>>=◌ {κ ℓ} : {V : Type κ} {W : Type ℓ} → Action V → (V → Action W) → Action W
◌>>=◌ m f db = let (r, db') = m db in elim r [ ok a ↦ f a db' | err e ↦ (err e, db') ]

abbrev pub ◌>>◌ {ℓ} : {B : Type ℓ} → Action (Unit {0}) → Action B → Action B
m >> k = m >>= λ _. k

abbrev pub lift {ℓ} : {A : Type ℓ} → Result A → Action A
lift r db = (r, db)

abbrev pub reading {ℓ} : {A : Type ℓ} → (Tables → Result A) → Action A
reading q db = (q db, db)

abbrev pub refuse_existing : Option ChangeEvent → Result (Unit {0})
refuse_existing none = ok tt
refuse_existing (some event) = err (duplicate (some event))

-- The event of a known external id is returned beside the sentinel.
unfoldable pub check_external_id : String → Action (Unit {0})
check_external_id external_id =
    reading (λ db.
      if external_id == "" then ok tt else refuse_existing (get_by_external_id external_id db))

abbrev pub require_found : Error → Option ChangeEvent → Result ChangeEvent
require_found e none = err e
require_found e (some event) = ok event

abbrev pub checked : Result ChangeEvent → Result (Unit {0})
checked (ok event) = ok tt
checked (err e) = err e

unfoldable pub require_parent : String → Action (Unit {0})
require_parent parent_id = reading (λ db.
    if parent_id == ""
    then ok tt
    else checked (require_found parent_not_found (get_by_id parent_id db)))

-- `ChangeService.GetByID`
unfoldable pub get_event : String → Action ChangeEvent
get_event id = reading (λ db. require_found event_not_found (get_by_id id db))

abbrev pub or_now : Time → Option Time → Time
or_now now none = now
or_now now (some t) = t

-- `id` is the fresh UUID and `now` the clock's time.
module _ (id : String) (now : Time) where
  unfoldable pub new_event : CreateChangeRequest → String × Tags → ChangeEvent
  new_event req (event_type, tags) = record {
    id = id;
    external_id = req.external_id;
    parent_id = req.parent_id;
    user_name = req.user_name;
    user_provider = req.user_provider;
    user_subject = req.user_subject;
    timestamp = or_now now req.timestamp;
    event_type = event_type;
    description = req.description;
    long_description = req.long_description;
    links = req.links;
    tags = tags;
    created_at = now;
  }

  unfoldable pub create_with : CreateChangeRequest → Bool → Action ChangeEvent
  unfolding check_external_id require_parent new_event
  create_with req enforce = do
    check_external_id req.external_id
    canonical ← lift (validate_create_request req enforce)
    require_parent req.parent_id
    Store.create (new_event req canonical)

  unfoldable pub create : CreateChangeRequest → Action ChangeEvent
  unfolding create_with
  create req = create_with req true

  unfoldable pub link_request : String → UserIdentity → List EventLink → CreateChangeRequest
  link_request event_id user links = record {
    parent_id = event_id;
    external_id = "";
    user_name = user.name;
    user_provider = user.provider;
    user_subject = user.subject;
    timestamp = none;
    event_type = EventType.link;
    description = "added external links";
    long_description = "";
    links = links;
    tags = [];
  }

  -- `AddLinksAs`
  unfoldable pub add_links : String → UserIdentity → List EventLink → Action ChangeEvent
  unfolding create link_request
  add_links event_id user links =
      if is_empty links
      then lift (err links_required)
      else create (link_request event_id user links)

  abbrev pub as_event_not_found : Result ChangeEvent → Result ChangeEvent
  as_event_not_found (err not_found) = err event_not_found
  as_event_not_found r = r

  unfoldable pub toggle_star : String → UserIdentity → Action ChangeEvent
  toggle_star event_id user db =
      let (r, db') = Toggle.toggle_star id now event_id user db in (as_event_not_found r, db')

  unfoldable pub toggle_alert : String → UserIdentity → Action ChangeEvent
  toggle_alert event_id user db =
      let (r, db') = Toggle.toggle_alert id now event_id user db in (as_event_not_found r, db')
