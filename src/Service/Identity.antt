-- ===== src/Service/Identity.antt =====
-- The logical operation that an event starts.
use Prim.Native.String as Str
use go_prod_change_registry.Prelude.{String, not, ◌||◌, Option, none, some, if◌then◌else◌, ◌==◌}
use go_prod_change_registry.Text.{◌+++◌}
use go_prod_change_registry.Dict.{get_or}
use go_prod_change_registry.Model.{ChangeEvent}

-- `none` is the source's `ok = false`.
unfoldable pub operation_identity : ChangeEvent → Option (String × String)
unfolding get_or
operation_identity event =
    if not (event.parent_id == "") || not (get_or "phase" "" event.tags == "start")
    then none
    else if not (get_or "change_id" "" event.tags == "")
    then some ("change_id", get_or "change_id" "" event.tags)
    else if not (get_or "deploy_id" "" event.tags == "")
    then some ("deploy_id", get_or "deploy_id" "" event.tags)
    else none

abbrev nul : String
nul = Str.◌∷◌ Prim.Native.Char.nul Str.[]

-- `sha256_hex` is SHA-256 in hexadecimal.
module _ (sha256_hex : String → String) where
  unfoldable pub operation_close_external_id : String → String → String → String
  operation_close_external_id event_type key value =
      "pcr:close:" +++ sha256_hex (event_type +++ nul +++ key +++ nul +++ value)
