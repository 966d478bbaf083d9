-- ===== src/Model.antt =====
-- internal/model/change.go: the records that every layer shares, and the clamped page size.
pub mod EventType
pub mod OperationState
pub mod Limit
use go_prod_change_registry.Prelude.{ℕ, String, Bool, not, List, Option, if◌then◌else◌, ◌==◌}
use go_prod_change_registry.Prelude.Int.{ℤ, pos, leb_ℤ, ltb_ℤ}
use go_prod_change_registry.Dict.{Dict}

-- `time.Time` as nanoseconds since the earliest instant of the type, a whole second.
abbrev pub Time : Type 0
Time = ℕ

abbrev pub Tags : Type 0
Tags = Dict String

pub record UserIdentity : Type 0 where
  pub name : String
  pub provider : String
  pub subject : String

pub record EventLink : Type 0 where
  pub label : String
  pub url : String

pub record ChangeEvent : Type 0 where
  pub id : String
  pub external_id : String
  pub parent_id : String
  pub user_name : String
  pub user_provider : String
  pub user_subject : String
  pub timestamp : Time
  pub event_type : String
  pub description : String
  pub long_description : String
  pub links : List EventLink
  pub tags : Tags
  pub created_at : Time

unfoldable pub is_meta_event : ChangeEvent → Bool
is_meta_event e = not (e.parent_id == "")

-- `window` is a duration in nanoseconds.
pub record ListParams : Type 0 where
  pub parent_id : String
  pub start_after : Option Time
  pub start_before : Option Time
  pub around : Option Time
  pub window : Option ℤ
  pub user_name : String
  pub event_type : String
  pub top_level : Bool
  pub alerted_only : Bool
  pub tags : Tags
  pub limit : ℤ
  pub offset : ℤ

pub record CurrentParams : Type 0 where
  pub for_team : String
  pub scopes : List String
  pub severities : List String
  pub event_type : String
  pub correlation_key : String
  pub correlation_value : String
  pub limit : ℤ
  pub offset : ℤ

abbrev pub default_limit : ℤ
default_limit = pos 50

abbrev pub dashboard_limit : ℤ
dashboard_limit = pos 40

abbrev pub max_limit : ℤ
max_limit = pos 200

unfoldable pub effective_limit : ℤ → ℤ
effective_limit limit =
    if leb_ℤ limit (pos 0)
    then default_limit
    else if ltb_ℤ max_limit limit
    then max_limit
    else limit

pub record ListResult : Type 0 where
  pub events : List ChangeEvent
  pub total_count : ℕ
  pub limit : ℤ
  pub offset : ℤ

pub record CreateChangeRequest : Type 0 where
  pub parent_id : String
  pub external_id : String
  pub user_name : String
  pub user_provider : String
  pub user_subject : String
  pub timestamp : Option Time
  pub event_type : String
  pub description : String
  pub long_description : String
  pub links : List EventLink
  pub tags : Tags

pub record EventAnnotations : Type 0 where
  pub starred : Bool
  pub alerted : Bool
