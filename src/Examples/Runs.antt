-- ===== src/Examples/Runs.antt =====
-- Runs of the model.
use go_prod_change_registry.Prelude.{true, false, [], ◌∷◌, none, some, ◌≡◌, refl}
use go_prod_change_registry.Prelude.Int.{negsuc}
use go_prod_change_registry.Text.{trim_space, to_lower, split}
use go_prod_change_registry.Number.{atoi}
use go_prod_change_registry.Service.Validate.{is_bad_link, normalize_event_tags}
use go_prod_change_registry.Handler.Record.{
  parse_record_change_tags, accepted, refused, repeated_key,
}

trims : trim_space "  a b\t\n" ≡ "a b"
unfolding trim_space
trims = refl

lowers : to_lower "SeV1é" ≡ "sev1é"
unfolding to_lower
lowers = refl

splits : split 0x2c "a,,b" ≡ "a" ∷ "" ∷ "b" ∷ []
unfolding split
splits = refl

negative_number : atoi "-12" ≡ some (negsuc 11)
unfolding atoi
negative_number = refl

no_number : atoi "1_000" ≡ none
unfolding atoi
no_number = refl

good_link :
    is_bad_link (record { label = "plan"; url = "https://wiki.example:80/plan?x=%20" }) ≡ false
unfolding is_bad_link
good_link = refl

link_with_user : is_bad_link (record { label = ""; url = "https://u@wiki.example/" }) ≡ true
unfolding is_bad_link
link_with_user = refl

link_with_escaped_newline :
    is_bad_link (record { label = ""; url = "https://wiki.example/%0a" }) ≡ true
unfolding is_bad_link
link_with_escaped_newline = refl

normalized :
    normalize_event_tags (("severity", " SEV1 ") ∷ ("note", " kept ") ∷ [])
    ≡ ("severity", "sev1") ∷ ("note", " kept ") ∷ []
unfolding normalize_event_tags
normalized = refl

tag_lines : parse_record_change_tags " a = 1 \n\nb=x=y" ≡ accepted (("a", "1") ∷ ("b", "x=y") ∷ [])
unfolding parse_record_change_tags
tag_lines = refl

repeated_line : parse_record_change_tags "a=1\na=2" ≡ refused (repeated_key "a" 2)
unfolding parse_record_change_tags
repeated_line = refl
