-- ===== src/Status/Http.antt =====
-- pigate/cmd/statusserver/main.go: the server of HTTP, with its routes and the JSON that it answers. The
-- files of the page are served by the library, a parameter here.
pub mod Reading
pub mod Requests
use pigate.Prelude.{
  ℕ, String, Bool, true, false, ◌&&◌, ◌||◌, Option, none, some, List, [], ◌∷◌, ◌++◌, Error,
  string_eq, ◌==◌, if◌then◌else◌,
}
use pigate.Messenger.Client.{Client}
use pigate.Status.Server.{App, Response, bad_request, bad_gateway, accepted, handle_command}
use pigate.Status.Page.{StatusSnapshot, handle_status}

-- A value of a JSON object of the server. `message` is what `Error()` says.
pub data Value : Type 0 where
  word : String → Value
  flag : Bool → Value
  instant : ℕ → Value
  message : Error → Value

abbrev pub Object : Type 0
Object = List (String × Value)

pub data Body : Type 0 where
  json : Object → Body
  plain : String → Body
  page : String → Body

pub record HttpResponse : Type 0 where
  pub status : ℕ
  pub content_type : Option String
  pub body : Body

unfoldable pub write_json : ℕ → Object → HttpResponse
write_json status body = record {
  status = status;
  content_type = some "application/json";
  body = json body;
}

unfoldable pub write_error : ℕ → Error → HttpResponse
unfolding write_json
write_error status error = write_json status (("error", message error) ∷ [])

-- A member that is left out when it is empty.
abbrev unless_nil : String → Option ℕ → Object
unless_nil name none = []
unless_nil name (some at) = (name, instant at) ∷ []

abbrev unless_blank : String → String → Object
unless_blank name text = if text == "" then [] else (name, word text) ∷ []

abbrev unless_fine : String → Option Error → Object
unless_fine name none = []
unless_fine name (some e) = (name, message e) ∷ []

-- The tags of `statusSnapshot`.
unfoldable pub encode_snapshot : StatusSnapshot → Object
encode_snapshot s =
    (("location_id", word s.location_id) ∷ ("gate_status", word s.gate_status) ∷ [])
    ++ unless_nil "gate_status_at" s.gate_status_at
    ++ (("credential_status", word s.credential_status) ∷ [])
    ++ unless_nil "credential_status_at" s.credential_status_at
    ++ unless_blank "last_command" s.last_command
    ++ unless_nil "last_command_at" s.last_command_at
    ++ (("mqtt_connected", flag s.mqtt_connected) ∷ ("db_connected", flag s.db_connected) ∷ [])
    ++ unless_fine "db_error" s.db_error
    ++ (("server_time", instant s.server_time) ∷ [])

-- `commandResponse`, or the error with its status.
unfoldable pub respond : Response → HttpResponse
unfolding write_json write_error
respond (bad_request e) = write_error 400 e
respond (bad_gateway e) = write_error 502 e
respond (accepted command) = write_json 200 (("ok", flag true) ∷ ("command", word command) ∷ [])

unfoldable pub handle_health : HttpResponse
handle_health = record { status = 200; content_type = none; body = plain "ok\n" }

-- `command` is what the body decodes to, as for `handle_command`. The path is clean.
pub record Request : Type 0 where
  pub method : String
  pub path : String
  pub command : Option String

pub data Route : Type 0 where
  api_status api_command healthz static : Route

-- A pattern with GET is also for HEAD. The pattern `/` takes what no other one takes, a request with
-- another method included.
unfoldable pub route : Request → Route
route r =
    let gets = r.method == "GET" || r.method == "HEAD" in
    if gets && r.path == "/api/status"
    then api_status
    else if r.method == "POST" && r.path == "/api/command"
    then api_command
    else if gets && r.path == "/healthz"
    then healthz
    else static

module _ (client : Client) (is_connected : client.State → Bool)
    (files : Request → HttpResponse) where
  abbrev served : Route → Request → ℕ → App client → HttpResponse × App client
  served api_status r now a =
      let (s, a') = handle_status client is_connected now a in
      (write_json 200 (encode_snapshot s), a')
  served api_command r now a =
      let (response, a') = handle_command client r.command now a in (respond response, a')
  served healthz r now a = (handle_health, a)
  served static r now a = (files r, a)

  unfoldable pub serve_http : Request → ℕ → App client → HttpResponse × App client
  serve_http r now a = served (route r) r now a
