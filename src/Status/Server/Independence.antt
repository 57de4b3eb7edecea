-- ===== src/Status/Server/Independence.antt =====
-- What the server shows does not depend on its database.
use pigate.Prelude.{
  ℕ, ◌≡◌, refl, inl, inr, String, Option, none, some, List, [], ◌∷◌, pair_cases, Result-cases,
}
use pigate.Messenger.Client.{Client}
use pigate.Status.Commands.{normalize_command}
use pigate.Status.Server.{
  App, ServerEvent, gate_reports, credential_reports, command_comes, on_gate_status,
  on_credential_status, handle_command, send_command, serve,
}

module _ (client : Client) where
  -- Two servers that differ in their stores at most.
  pub record Alike (a b : App client) : Type 0 where
    pub state_same : a.state ≡ b.state
    pub mqtt_same : a.mqtt ≡ b.mqtt

  handle_command-Alike :
      (body : Option String) (now : ℕ) (a b : App client)
      → Alike a b
      → ((handle_command client body now a).0 ≡ (handle_command client body now b).0)
        × Alike (handle_command client body now a).1 (handle_command client body now b).1
  unfolding handle_command
  handle_command-Alike none now a b same = (refl, same)
  handle_command-Alike (some raw) now a b same = elim (pair_cases (normalize_command raw)) [
    | inl (e, bad) ↦ rw bad (refl, same)
    | inr (command, payload, good) ↦
        let sends : send_command client b.state.location_id command b.mqtt
            ≡ send_command client a.state.location_id command a.mqtt =
          cc (same.state_same, same.mqtt_same) in
        elim (Result-cases (send_command client a.state.location_id command a.mqtt).0) [
          | inr (e, failed) ↦
              rw (good, sends, failed)
                (refl, record { state_same = same.state_same; mqtt_same = refl })
          | inl (unit, fine) ↦
              rw (good, sends, fine)
                (refl, record { state_same = cc (same.state_same); mqtt_same = refl })
        ]
  ]

  -- Two servers with the same state and the same client of the broker, and any two stores, whatever
  -- calls to them fail: after the same reports and commands they have the same state, and have
  -- published the same.
  pub serve-Alike :
      (es : List (ServerEvent client)) (a b : App client)
      → Alike a b
      → Alike (serve client es a) (serve client es b)
  unfolding serve on_gate_status on_credential_status
  serve-Alike [] a b same = same
  serve-Alike (gate_reports topic status now ∷ es) a b same =
      serve-Alike es _ _ (record { state_same = cc (same.state_same); mqtt_same = same.mqtt_same })
  serve-Alike (credential_reports topic status now ∷ es) a b same =
      serve-Alike es _ _ (record { state_same = cc (same.state_same); mqtt_same = same.mqtt_same })
  serve-Alike (command_comes body now ∷ es) a b same =
      serve-Alike es _ _ (handle_command-Alike body now a b same).1
