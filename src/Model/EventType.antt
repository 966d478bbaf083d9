-- ===== src/Model/EventType.antt =====
-- internal/model/change.go: the event types that the program knows by name.
use Prim.Native.String.{String}

abbrev pub maintenance : String
maintenance = "maintenance"

abbrev pub star : String
star = "star"

abbrev pub unstar : String
unstar = "unstar"

abbrev pub alert : String
alert = "alert"

abbrev pub clear_alert : String
clear_alert = "clear-alert"

abbrev pub link : String
link = "link"
