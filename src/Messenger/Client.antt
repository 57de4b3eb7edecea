-- ===== src/Messenger/Client.antt =====
-- pigate/pkg/messenger/messanger.go, `MQTTClient`: what it publishes. The client of the broker is a
-- library, and a parameter here.
use pigate.Prelude.{String, Bool, true, false, ◌<>◌, text, Result, err, M}
use pigate.Messenger.Messages.{
  command_open_message, command_hold_open_message, command_close_message, status_opened,
  status_locked_open, status_closed, update_available, topic_pigate_status, topic_pigate_command,
  topic_credentials_status,
}

-- What a token says within the time that `WaitTimeout` allows: that it is not done, or its error.
pub data Token : Type 0 where
  late : Token
  in_time : Result (Unit {0}) → Token

-- `Publish(topic, 1, retained, payload)` of the library.
pub record Client : Type 1 where
  pub State : Type 0
  pub send : String → Bool → String → State → Token × State

unfoldable pub wait_for_token : String → Token → Result (Unit {0})
wait_for_token action late = err (text (action <> " timed out"))
wait_for_token action (in_time result) = result

module _ (client : Client) where
  open client use {State}

  unfoldable pub publish : String → Bool → String → M State (Unit {0})
  unfolding wait_for_token
  publish topic retained payload s =
      let (token, s') = client.send topic retained payload s in
      (wait_for_token ("publish to topic " <> topic) token, s')

  module _ (location_id : String) where
    unfoldable pub notify_new_credentials : M State (Unit {0})
    notify_new_credentials = publish (topic_credentials_status location_id) true update_available

    unfoldable pub command_open : M State (Unit {0})
    command_open = publish (topic_pigate_command location_id) false command_open_message

    unfoldable pub command_lock_open : M State (Unit {0})
    command_lock_open = publish (topic_pigate_command location_id) false command_hold_open_message

    unfoldable pub command_close : M State (Unit {0})
    command_close = publish (topic_pigate_command location_id) false command_close_message

    unfoldable pub notify_gate_open : M State (Unit {0})
    notify_gate_open = publish (topic_pigate_status location_id) true status_opened

    unfoldable pub notify_gate_locked_open : M State (Unit {0})
    notify_gate_locked_open = publish (topic_pigate_status location_id) true status_locked_open

    unfoldable pub notify_gate_closed : M State (Unit {0})
    notify_gate_closed = publish (topic_pigate_status location_id) true status_closed
