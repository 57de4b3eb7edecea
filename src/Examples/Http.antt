-- ===== src/Examples/Http.antt =====
-- Requests of the page, and what the server answers.
use pigate.Prelude.{
  ℕ, ◌≡◌, refl, sym, ◌∙◌, ◌≢◌, ap, String, Bool, true, none, some, [], ◌∷◌, ok, string_eq,
}
use pigate.Status.State.{set_command, new_status_state}
use pigate.Status.Page.{handle_status}
use pigate.Status.Server.{handle_command, send_command}
use pigate.Status.Server.Publishing.{published}
use pigate.Status.Commands.{normalize_command}
use pigate.Parser.Text.{trim_space, trim_left, trim_right, is_space}
use pigate.Messenger.Client.{command_close, publish}
use pigate.Status.Http.{
  word, flag, page, Object, Request, HttpResponse, write_json, serve_http, route, static,
}
use pigate.Status.Http.Reading.{read_snapshot, serve_http-read_snapshot}
use pigate.Status.Commands.Meaning.{Means}
use pigate.Status.Http.Requests.{after, serve_http_lem}
use pigate.Examples.Status.{broker, server}

abbrev online : broker.State → Bool
online s = true

abbrev files : Request → HttpResponse
files r = record { status = 404; content_type = none; body = page "404 page not found\n" }

abbrev get_status : Request
get_status = record { method = "GET"; path = "/api/status"; command = none }

abbrev close_it : Request
close_it = record { method = "POST"; path = "/api/command"; command = some "Close " }

-- The right path with another method is a file that is not there.
wrong_method : route (record { method = "POST"; path = "/api/status"; command = none }) ≡ static
unfolding route string_eq
wrong_method = refl

serve_http-read_snapshot_example :
    let (response, a') = serve_http broker online files get_status 3 server in
    (o : Object) × (response ≡ write_json 200 o)
    × (read_snapshot o ≡ (handle_status broker online 3 server).0)
    × (a'.state ≡ server.state)
    × (a'.mqtt ≡ server.mqtt)
serve_http-read_snapshot_example =
    serve_http-read_snapshot broker online files get_status 3 server refl refl

commanded_at : (after broker online files close_it 8 server).1.state.last_command_at ≡ some 8
unfolding serve_http route handle_command normalize_command trim_space trim_right trim_left is_space
    send_command string_eq command_close publish set_command
commanded_at = refl

none-ne-some : {n : ℕ} → none ≢ some n
none-ne-some h = absurd (cc)

knows_more : (after broker online files close_it 8 server).1.state ≢ server.state
unfolding new_status_state
knows_more h = none-ne-some (sym (ap (λ s. s.last_command_at) h) ∙ commanded_at)

serve_http_lem_example :
    (close_it.method ≡ "POST")
    × (close_it.path ≡ "/api/command")
    × (raw : String) × (close_it.command ≡ some raw)
    × (command : String) × (payload : String) × Means raw command payload
    × ((published broker 8 server payload).0 ≡ ok tt)
    × ((after broker online files close_it 8 server).1.mqtt ≡ (published broker 8 server payload).1)
    × ((after broker online files close_it 8 server).1.state ≡ set_command command 8 server.state)
    × ((after broker online files close_it 8 server).0
        ≡ write_json 200 (("ok", flag true) ∷ ("command", word command) ∷ []))
serve_http_lem_example = serve_http_lem broker online files close_it 8 server knows_more
