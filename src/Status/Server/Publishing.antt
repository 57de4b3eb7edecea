-- ===== src/Status/Server/Publishing.antt =====
-- What the server answers to a command, and what it has published then.
use pigate.Prelude.{
  ℕ, ◌≡◌, refl, ◌⊎◌, inl, inr, String, false, Option, none, some, arith, Error, Result, ok, err,
  Result-cases, pair_cases, string_eq, text,
}
use pigate.Messenger.Messages.{
  command_open_message, command_hold_open_message, command_close_message, topic_pigate_command,
}
use pigate.Messenger.Client.{Client, publish, command_open, command_lock_open, command_close}
use pigate.Status.State.{set_command}
use pigate.Status.Commands.{normalize_command}
use pigate.Status.Commands.Meaning.{
  Means, MeansNothing, normalize_command-Means, normalize_command-MeansNothing,
}
use pigate.Status.Server.{App, accepted, bad_request, bad_gateway, handle_command, send_command}

-- The commands of the page, each with its payload.
abbrev pub IsCommand : String → String → Type 0
IsCommand command payload =
    ((command ≡ "open") × (payload ≡ command_open_message))
    ⊎ (((command ≡ "lock_open") × (payload ≡ command_hold_open_message))
        ⊎ ((command ≡ "close") × (payload ≡ command_close_message)))

IsCommand-of_Means :
    (raw command payload : String) → Means raw command payload → IsCommand command payload
IsCommand-of_Means raw command payload (inl (r, c, p)) = inl (c, p)
IsCommand-of_Means raw command payload (inr (inl (r, c, p))) = inr (inl (c, p))
IsCommand-of_Means raw command payload (inr (inr (r, c, p))) = inr (inr (c, p))

pub normalize_command-IsCommand :
    (raw command payload : String)
    → normalize_command raw ≡ ok (command, payload)
    → IsCommand command payload
normalize_command-IsCommand raw command payload h =
    IsCommand-of_Means raw command payload (normalize_command-Means raw command payload h)

-- A body that cannot be decoded, or whose command reads as none of the five words.
abbrev pub NoCommand : Option String → Type 0
NoCommand body = (body ≡ none) ⊎ ((raw : String) × (body ≡ some raw) × MeansNothing raw)

module _ (client : Client) where
  send_command-eq-publish :
      (location command payload : String) (s : client.State)
      → IsCommand command payload
      → send_command client location command s
        ≡ publish client (topic_pigate_command location) false payload s
  unfolding send_command command_open command_lock_open command_close string_eq
  send_command-eq-publish location command payload s (inl (c, p)) = rw (c, p)
  send_command-eq-publish location command payload s (inr (inl (c, p))) = rw (c, p)
  send_command-eq-publish location command payload s (inr (inr (c, p))) = rw (c, p)

  module _ (now : ℕ) (a : App client) where
    abbrev pub published : String → Result (Unit {0}) × client.State
    published payload =
        publish client (topic_pigate_command a.state.location_id) false payload a.mqtt

    -- A request is answered in one of three ways. Where the body has no command, or one that reads as
    -- none of the five words, the answer is a bad request, and nothing has changed. Otherwise the text
    -- of the body, without the blanks around it and in lower case, is the word of a command ("open";
    -- "lock_open", "locked_open" or "hold_open"; "close"), and the payload of that command ("open",
    -- "hold_open", "close") is published to the command topic of the location. Where that fails, the
    -- answer is a bad gateway with the error, and neither the state nor the store has changed. Where it
    -- does not, the answer is the accepted command, which is the last command of the state since.
    pub handle_command_lem :
        (body : Option String)
        → let (response, a') = handle_command client body now a in
          (NoCommand body × (e : Error) × (response ≡ bad_request e) × (a' ≡ a))
          ⊎ ((raw : String) × (body ≡ some raw)
              × (command : String) × (payload : String) × Means raw command payload
              × (a'.mqtt ≡ (published payload).1)
              × (((e : Error) × ((published payload).0 ≡ err e)
                    × (response ≡ bad_gateway e)
                    × (a'.state ≡ a.state)
                    × (a'.store ≡ a.store))
                  ⊎ (((published payload).0 ≡ ok tt)
                      × (response ≡ accepted command)
                      × (a'.state ≡ set_command command now a.state))))
    unfolding handle_command
    handle_command_lem none = inl (inl refl, text "invalid command request", refl, refl)
    handle_command_lem (some raw) = elim (pair_cases (normalize_command raw)) [
      | inl (e, bad) ↦
          inl (
            inr (raw, refl, normalize_command-MeansNothing raw e bad),
            e,
            ground arith,
            ground arith,
          )
      | inr (command, payload, good) ↦
          let same =
            send_command-eq-publish a.state.location_id command payload a.mqtt
              (normalize_command-IsCommand raw command payload good) in
          inr (
            raw,
            refl,
            command,
            payload,
            normalize_command-Means raw command payload good,
            ground (arith, same),
            elim (Result-cases (published payload).0) [
              | inr (e, failed) ↦
                  inl (e, failed, ground (arith, same), ground (arith, same), ground (arith, same))
              | inl (unit, fine) ↦ inr (fine, ground (arith, same), ground (arith, same))
            ],
          )
    ]
