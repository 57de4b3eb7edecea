-- ===== src/Status/Http/Reading.antt =====
-- A reader of the answers of the server, and what it reads.
use pigate.Prelude.{
  ℕ, ◌≡◌, refl, String, Bool, false, Option, none, some, [], ◌∷◌, arith, Error, string_eq, ◌==◌,
  if◌then◌else◌,
}
use pigate.Messenger.Client.{Client}
use pigate.Status.Server.{App}
use pigate.Status.Page.{StatusSnapshot, handle_status}
use pigate.Status.Http.{
  Value, word, flag, instant, message, Object, HttpResponse, encode_snapshot, write_json, Request,
  api_status, route, serve_http,
}

abbrev pub member : String → Object → Option Value
member name [] = none
member name ((key, v) ∷ rest) = if key == name then some v else member name rest

-- A member that is missing is an empty text, no time, or no error.
abbrev pub as_text : Option Value → String
as_text (some (word s)) = s
as_text other = ""

abbrev pub as_time : Option Value → Option ℕ
as_time (some (instant at)) = some at
as_time other = none

abbrev pub as_flag : Option Value → Bool
as_flag (some (flag b)) = b
as_flag other = false

abbrev pub as_error : Option Value → Option Error
as_error (some (message e)) = some e
as_error other = none

abbrev pub from_time : Option ℕ → ℕ
from_time none = 0
from_time (some at) = at

abbrev pub read_snapshot : Object → StatusSnapshot
read_snapshot o = record {
  location_id = as_text (member "location_id" o);
  gate_status = as_text (member "gate_status" o);
  gate_status_at = as_time (member "gate_status_at" o);
  credential_status = as_text (member "credential_status" o);
  credential_status_at = as_time (member "credential_status_at" o);
  last_command = as_text (member "last_command" o);
  last_command_at = as_time (member "last_command_at" o);
  mqtt_connected = as_flag (member "mqtt_connected" o);
  db_connected = as_flag (member "db_connected" o);
  db_error = as_error (member "db_error" o);
  server_time = from_time (as_time (member "server_time" o));
}

read_snapshot-encode_snapshot : (s : StatusSnapshot) → read_snapshot (encode_snapshot s) ≡ s
unfolding encode_snapshot string_eq
read_snapshot-encode_snapshot s = ground arith

route-api_status : (r : Request) → r.method ≡ "GET" → r.path ≡ "/api/status" → route r ≡ api_status
unfolding route string_eq
route-api_status r get path = rw (get, path) refl

module _ (client : Client) (is_connected : client.State → Bool)
    (files : Request → HttpResponse) where
  -- A GET of `/api/status` is answered with 200 and a JSON object, and a reader that takes a missing
  -- member for an empty text, no time, or no error reads from it the snapshot that `handleStatus`
  -- took. The state of the server is as before, and nothing was published.
  pub serve_http-read_snapshot :
      (r : Request) (now : ℕ) (a : App client)
      → r.method ≡ "GET"
      → r.path ≡ "/api/status"
      → let (response, a') = serve_http client is_connected files r now a in
        (o : Object) × (response ≡ write_json 200 o)
        × (read_snapshot o ≡ (handle_status client is_connected now a).0)
        × (a'.state ≡ a.state)
        × (a'.mqtt ≡ a.mqtt)
  unfolding serve_http handle_status
  serve_http-read_snapshot r now a get path = (
    encode_snapshot (handle_status client is_connected now a).0,
    rw (route-api_status r get path) refl,
    read_snapshot-encode_snapshot _,
    rw (route-api_status r get path) refl,
    rw (route-api_status r get path) refl,
  )
