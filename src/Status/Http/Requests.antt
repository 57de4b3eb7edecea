-- ===== src/Status/Http/Requests.antt =====
-- Which requests change what the server knows.
use pigate.Prelude.{
  ℕ, ◌≡◌, refl, ◌∙◌, ◌≢◌, ◌⊎◌, inl, inr, some, String, Bool, true, [], ◌∷◌, arith, ok, string_eq,
  ap,
}
use pigate.Messenger.Client.{Client}
use pigate.Status.State.{set_command}
use pigate.Status.Server.{App, accepted, handle_command}
use pigate.Status.Commands.Meaning.{Means}
use pigate.Status.Server.Publishing.{published, handle_command_lem}
use pigate.Status.Page.{handle_status}
use pigate.Status.Http.{
  word, flag, HttpResponse, Request, Route, api_status, api_command, healthz, static, route,
  respond, write_json, serve_http,
}

route-api_command :
    (r : Request) → route r ≡ api_command → (r.method ≡ "POST") × (r.path ≡ "/api/command")
unfolding route
route-api_command r h = ground arith

Route-cases : (x : Route) → (x ≡ api_command) ⊎ ((x ≡ api_status) ⊎ ((x ≡ healthz) ⊎ (x ≡ static)))
Route-cases api_command = inl refl
Route-cases api_status = inr (inl refl)
Route-cases healthz = inr (inr (inl refl))
Route-cases static = inr (inr (inr refl))

respond-accepted :
    (command : String)
    → respond (accepted command)
      ≡ write_json 200 (("ok", flag true) ∷ ("command", word command) ∷ [])
unfolding respond
respond-accepted command = refl

module _ (client : Client) (is_connected : client.State → Bool)
    (files : Request → HttpResponse) where
  abbrev pub after : Request → ℕ → App client → HttpResponse × App client
  after = serve_http client is_connected files

  command_or_not :
      (r : Request) (now : ℕ) (a : App client)
      → ((route r ≡ api_command)
          × ((after r now a).0 ≡ respond (handle_command client r.command now a).0)
          × ((after r now a).1 ≡ (handle_command client r.command now a).1))
        ⊎ (((after r now a).1.state ≡ a.state) × ((after r now a).1.mqtt ≡ a.mqtt))
  unfolding serve_http handle_status
  command_or_not r now a = elim (Route-cases (route r)) [
    | inl post ↦ inl (post, rw post refl, rw post refl)
    | inr (inl get) ↦ inr (rw get refl, rw get refl)
    | inr (inr (inl health)) ↦ inr (rw health refl, rw health refl)
    | inr (inr (inr rest)) ↦ inr (rw rest refl, rw rest refl)
  ]

  -- A request after which the server knows something else is a POST of `/api/command` with a text
  -- that, without the blanks around it and in lower case, is the word of a command ("open";
  -- "lock_open", "locked_open" or "hold_open"; "close"). The payload of that command was published,
  -- without an error; it is the last command since, and nothing else that the server knows has
  -- changed; and the answer is 200 and the command.
  pub serve_http_lem :
      (r : Request) (now : ℕ) (a : App client)
      → (after r now a).1.state ≢ a.state
      → (r.method ≡ "POST")
        × (r.path ≡ "/api/command")
        × (raw : String) × (r.command ≡ some raw)
        × (command : String) × (payload : String) × Means raw command payload
        × ((published client now a payload).0 ≡ ok tt)
        × ((after r now a).1.mqtt ≡ (published client now a payload).1)
        × ((after r now a).1.state ≡ set_command command now a.state)
        × ((after r now a).0 ≡ write_json 200 (("ok", flag true) ∷ ("command", word command) ∷ []))
  serve_http_lem r now a moved = elim (command_or_not r now a) [
    | inr (same, mqtt) ↦ absurd (moved same)
    | inl (post, answer, next) ↦ elim (handle_command_lem client now a r.command) [
      | inl (no_command, e, bad, same) ↦ absurd (moved (ap (λ b. b.state) (next ∙ same)))
      | inr (raw, body, command, payload, means, sent, inl (e, failed, bad, same, store)) ↦
          absurd (moved (ap (λ b. b.state) next ∙ same))
      | inr (raw, body, command, payload, means, sent, inr (fine, good, set)) ↦
          let (method, path) = route-api_command r post in
          (
            method,
            path,
            raw,
            body,
            command,
            payload,
            means,
            fine,
            ap (λ b. b.mqtt) next ∙ sent,
            ap (λ b. b.state) next ∙ set,
            answer ∙ ap respond good ∙ respond-accepted command,
          )
    ]
  ]
