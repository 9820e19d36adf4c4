-- ===== src/Protocol/Wire.antt =====
-- What serde derives for protocol.rs: the JSON value of a response and of a notification.
use commmon.Base.{String, Option, none, some, List, [], ◌∷◌, ◌++◌}
use commmon.Json.{Value, bool, string, json}
use commmon.Protocol.{Response, Notification}

-- `skip_serializing_if = "Option::is_none"`
abbrev optional : String → Option Value → List (String × Value)
optional k none = []
optional k (some v) = (k, v) ∷ []

abbrev optional_text : String → Option String → List (String × Value)
optional_text k none = []
optional_text k (some s) = (k, string s) ∷ []

unfoldable pub response_value : Response → Value
response_value r =
    json (("ok", bool r.ok) ∷ (optional "data" r.payload ++ optional_text "error" r.error))

unfoldable pub notification_value : Notification → Value
notification_value n = json (("notify", string n.notify) ∷ ("data", n.payload) ∷ [])
