-- ===== src/Store/Toggle/Effect.antt =====
-- internal/store/postgres/postgres.go: `GetAnnotations` after `ToggleStar` and `ToggleAlert`.
use go_prod_change_registry.Prelude.{
  String, not, ◌&&◌, ◌||◌, some, if◌then◌else◌, ◌==◌, ◌≡◌, ◌≢◌, ◌∙◌, arith, eq_iff, Bool-cases, inl,
  inr,
}
use go_prod_change_registry.Model.{Time, UserIdentity, EventAnnotations}
use go_prod_change_registry.Store.Tables.{Tables}
use go_prod_change_registry.Store.Write.{event_row}
use go_prod_change_registry.Store.Annotations.{get_annotations}
use go_prod_change_registry.Store.Annotations.Latest.{get_annotations-latest}
use go_prod_change_registry.Store.Toggle.{
  latest_transition, is_active, transition_event, toggle_star, toggle_alert,
}
use go_prod_change_registry.Store.Toggle.Laws.{
  Togglable, transition_row, with_row, toggle_transition_lem, nullable_string_of_ne,
}

module _ (id : String) (now : Time) (event_id : String) (user : UserIdentity) (db : Tables) where
  latest_transition-with_row :
      event_id ≢ ""
      → (other type text active inactive : String)
      → latest_transition other active inactive
          (with_row id now event_id user db (transition_row id now event_id user db type text))
        ≡ (if (event_id == other) && ((type == active) || (type == inactive))
            then some type
            else latest_transition other active inactive db)
  unfolding latest_transition event_row transition_event
  latest_transition-with_row named other type text active inactive =
      rw (nullable_string_of_ne event_id named) (ground arith)

  -- What another flag or another event reads after a row of a type.
  annotations-with_row :
      event_id ≢ ""
      → (other type text : String)
      → get_annotations other
          (with_row id now event_id user db (transition_row id now event_id user db type text))
        ≡ (record {
          starred =
              (if (event_id == other) && ((type == "star") || (type == "unstar"))
                then type == "star"
                else is_active (latest_transition other "star" "unstar" db) "star");
          alerted =
              (if (event_id == other) && ((type == "alert") || (type == "clear-alert"))
                then type == "alert"
                else is_active (latest_transition other "alert" "clear-alert" db) "alert");
        })
  annotations-with_row named other type text =
      simp (get_annotations-latest, latest_transition-with_row named) (ground arith)

  -- The flags of every event after a star was toggled.
  abbrev pub star_flipped : String → EventAnnotations
  star_flipped other =
      if event_id == other
      then record {
        starred = not (get_annotations event_id db).starred;
        alerted = (get_annotations event_id db).alerted;
      }
      else get_annotations other db

  abbrev pub alert_flipped : String → EventAnnotations
  alert_flipped other =
      if event_id == other
      then record {
        starred = (get_annotations event_id db).starred;
        alerted = not (get_annotations event_id db).alerted;
      }
      else get_annotations other db

  -- After the star of an event that is there was toggled, with a fresh id for the new row, the
  -- event's star flag is flipped and its alert flag kept, and no other event's flags changed.
  pub toggle_star_flips :
      Togglable id now event_id user db
      → (other : String)
      → get_annotations other (toggle_star id now event_id user db).1 ≡ star_flipped other
  unfolding toggle_star
  toggle_star_flips t other =
      rw (toggle_transition_lem id now event_id user db t "star" "unstar" "starred" "unstarred")
        (elim (Bool-cases (is_active (latest_transition event_id "star" "unstar" db) "star")) [
          | inl is_on ↦ rw is_on (
              annotations-with_row t.named other "unstar" "unstarred"
              ∙ simp get_annotations-latest (ground (arith, is_on, eq_iff event_id other)))
          | inr is_off ↦ rw is_off (
              annotations-with_row t.named other "star" "starred"
              ∙ simp get_annotations-latest (ground (arith, is_off, eq_iff event_id other)))
        ])

  -- After the alert of an event that is there was toggled, with a fresh id for the new row, the
  -- event's alert flag is flipped and its star flag kept, and no other event's flags changed.
  pub toggle_alert_flips :
      Togglable id now event_id user db
      → (other : String)
      → get_annotations other (toggle_alert id now event_id user db).1 ≡ alert_flipped other
  unfolding toggle_alert
  toggle_alert_flips t other =
      rw
        (toggle_transition_lem id now event_id user db t "alert" "clear-alert" "alert opened"
          "alert cleared")
        (elim (Bool-cases
          (is_active (latest_transition event_id "alert" "clear-alert" db) "alert")) [
            | inl is_on ↦ rw is_on (
                annotations-with_row t.named other "clear-alert" "alert cleared"
                ∙ simp get_annotations-latest (ground (arith, is_on, eq_iff event_id other)))
            | inr is_off ↦ rw is_off (
                annotations-with_row t.named other "alert" "alert opened"
                ∙ simp get_annotations-latest (ground (arith, is_off, eq_iff event_id other)))
          ])
