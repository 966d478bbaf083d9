-- ===== src/Store/Toggle/Laws.antt =====
-- internal/store/postgres/postgres.go: the tables after `toggleTransition`.
use go_prod_change_registry.Prelude.{
  String, true, false, ◌∷◌, none, some, if◌then◌else◌, ◌≡◌, ◌≢◌, refl, arith, Bool-cases, inl, inr,
  eq-false_of_ne,
}
use go_prod_change_registry.Model.{Time, UserIdentity, ChangeEvent}
use go_prod_change_registry.Errors.{Error, ok, err, Result-cases}
use go_prod_change_registry.Store.Tables.{EventRow, Tables, has_id, insert_event}
use go_prod_change_registry.Store.Tables.Invariant.{IsValid, insert_event-IsValid}
use go_prod_change_registry.Store.Scan.{nullable_string}
use go_prod_change_registry.Store.Write.{event_row}
use go_prod_change_registry.Store.Toggle.{
  latest_transition, is_active, appended, transition_event, append_transition, toggle_transition,
}

-- A text that is not empty is stored as it is.
pub nullable_string_of_ne : (id : String) → id ≢ "" → nullable_string id ≡ some id
unfolding nullable_string
nullable_string_of_ne id h = rw (eq-false_of_ne id "" h)

module _ (id : String) (now : Time) (event_id : String) (user : UserIdentity) (db : Tables) where
  -- The event is there, under an id that is not empty, and `id` is fresh.
  pub record Togglable : Type 0 where
    pub there : has_id event_id db.events ≡ true
    pub named : event_id ≢ ""
    pub fresh : has_id id db.events ≡ false

  abbrev pub transition_row : String → String → EventRow
  transition_row event_type description =
      event_row (transition_event id now event_id user event_type description)

  abbrev pub with_row : EventRow → Tables
  with_row row = record db { events = row ∷ db.events }

  append_transition_lem :
      Togglable
      → (event_type description : String)
      → append_transition id now (transition_event id now event_id user event_type description) db
        ≡ (
          ok (transition_event id now event_id user event_type description),
          with_row (transition_row event_type description),
        )
  unfolding append_transition insert_event event_row transition_event
  append_transition_lem t event_type description =
      rw (t.fresh, nullable_string_of_ne event_id t.named, nullable_empty) (ground (arith, t.there))
    where
      nullable_empty : nullable_string "" ≡ none
      nullable_empty = unfold nullable_string in refl

  -- What a toggle appends: the inactive type if the latest transition is the active one.
  abbrev pub next_type : String → String → String
  next_type active inactive =
      if is_active (latest_transition event_id active inactive db) active then inactive else active

  abbrev pub next_text : String → String → String → String → String
  next_text active inactive on off =
      if is_active (latest_transition event_id active inactive db) active then off else on

  pub toggle_transition_lem :
      Togglable
      → (active inactive on off : String)
      → toggle_transition id now event_id user active inactive on off db ≡ (
        ok (
            transition_event id now event_id user
              (next_type active inactive)
              (next_text active inactive on off)),
        with_row (transition_row (next_type active inactive) (next_text active inactive on off)),
      )
  unfolding toggle_transition
  toggle_transition_lem t active inactive on off =
      elim (Bool-cases (is_active (latest_transition event_id active inactive db) active)) [
        | inl is_on ↦ rw (t.there, is_on) (append_transition_lem t inactive off)
        | inr is_off ↦ rw (t.there, is_off) (append_transition_lem t active on)
      ]

  append_transition_atomic :
      (event : ChangeEvent) (e : Error)
      → (append_transition id now event db).0 ≡ err e
      → (append_transition id now event db).1 ≡ db
  unfolding append_transition
  append_transition_atomic event e h = elim (Result-cases (insert_event (event_row event) db)) [
    | inl (db₁, done) ↦ ground arith
    | inr (x, failed) ↦ rw failed
  ]

  -- Whatever the event, the pair of types and the tables, a toggle that returns an error leaves all
  -- three tables as they were.
  pub toggle_transition_atomic :
      (active inactive on off : String) (e : Error)
      → (toggle_transition id now event_id user active inactive on off db).0 ≡ err e
      → (toggle_transition id now event_id user active inactive on off db).1 ≡ db
  unfolding toggle_transition
  toggle_transition_atomic active inactive on off e h =
      elim (Bool-cases (has_id event_id db.events)) [
        | inr absent ↦ rw absent
        | inl there ↦
            elim (Bool-cases (is_active (latest_transition event_id active inactive db) active)) [
              | inl is_on ↦
                  rw (there, is_on)
                    (append_transition_atomic (transition_event id now event_id user inactive off) e
                      (rw (there, is_on) at h))
              | inr is_off ↦
                  rw (there, is_off)
                    (append_transition_atomic (transition_event id now event_id user active on) e
                      (rw (there, is_off) at h))
            ]
      ]

  append_transition-IsValid :
      (event : ChangeEvent) → IsValid db → IsValid (append_transition id now event db).1
  unfolding append_transition
  append_transition-IsValid event v = elim (Result-cases (insert_event (event_row event) db)) [
    | inl (db₁, done) ↦ rw (done, appended) (insert_event-IsValid (event_row event) db v done)
    | inr (x, failed) ↦ rw (failed, appended) v
  ]

  -- A toggle keeps the constraints of the schema, whether it appends a row or fails.
  toggle_transition-IsValid :
      (active inactive on off : String)
      → IsValid db
      → IsValid (toggle_transition id now event_id user active inactive on off db).1
  unfolding toggle_transition
  toggle_transition-IsValid active inactive on off v =
      elim (Bool-cases (has_id event_id db.events)) [
        | inr absent ↦ rw absent v
        | inl there ↦
            elim (Bool-cases (is_active (latest_transition event_id active inactive db) active)) [
              | inl is_on ↦
                  rw (there, is_on)
                    (append_transition-IsValid (transition_event id now event_id user inactive off)
                      v)
              | inr is_off ↦
                  rw (there, is_off)
                    (append_transition-IsValid (transition_event id now event_id user active on) v)
            ]
      ]
