-- ===== src/Handler/Reply.antt =====
-- internal/handler/dashboard.go and record.go: what the dashboard's handlers answer, and the data of
-- its pages.
use go_prod_change_registry.Prelude.{ℕ, String, Bool, List}
use go_prod_change_registry.Prelude.Int.{ℤ}
use go_prod_change_registry.Model.{EventLink, ChangeEvent, EventAnnotations}
use go_prod_change_registry.Handler.Dashboard.{DashboardFilters}
use go_prod_change_registry.Handler.Record.{RecordChangeForm, FormError}

pub record DashboardEvent : Type 0 where
  pub event : ChangeEvent
  pub starred : Bool
  pub alerted : Bool

pub record DashboardData : Type 0 where
  pub refresh_sec : ℤ
  pub user_name : String
  pub logout_csrf : String
  pub csrf_token : String
  pub events : List DashboardEvent
  pub banner_events : List ChangeEvent
  pub banner_total : ℕ
  pub banner_url : String
  pub filters : DashboardFilters
  pub total_count : ℕ
  pub limit : ℤ
  pub offset : ℤ
  pub has_prev : Bool
  pub has_next : Bool
  pub prev_url : String
  pub next_url : String
  pub offset_start : ℤ
  pub offset_end : ℤ

pub record DetailData : Type 0 where
  pub refresh_sec : ℤ
  pub user_name : String
  pub logout_csrf : String
  pub csrf_token : String
  pub event : ChangeEvent
  pub annotations : EventAnnotations
  pub links : List EventLink
  pub activity : List ChangeEvent
  pub operation_state : String
  pub action_error : String
  pub pending_links : List EventLink

-- The message above the form: none, the form's own, or a text.
pub data FormMessage : Type 0 where
  no_message : FormMessage
  form_error : FormError → FormMessage
  message_text : String → FormMessage

pub record RecordChangeData : Type 0 where
  pub refresh_sec : ℤ
  pub user_name : String
  pub logout_csrf : String
  pub csrf_token : String
  pub form : RecordChangeForm
  pub error : FormMessage

-- `http.Error`, `http.Redirect` and the pages, each with its status. `panicked` is what a nil event
-- leads to, and `unanswered` a loop that ran out of fuel.
pub data Reply : Type 0 where
  plain_error : ℕ → String → Reply
  redirect : ℕ → String → Reply
  dashboard_page : DashboardData → Reply
  detail_page : ℕ → DetailData → Reply
  record_page : ℕ → RecordChangeData → Reply
  -- The provider's label, the label of the button and the page to return to.
  login_page : String → String → String → Reply
  token_page : ℕ → String → Reply
  panicked unanswered : Reply
