-- ===== src/Service/Create/Checked.antt =====
-- internal/service/change.go: what holds of an event that `create` returns.
use go_prod_change_registry.Errors as Errors
use go_prod_change_registry.Store.Tables.{Tables}
use go_prod_change_registry.Store.Write as Store
