-- ===== src/Messenger/Interface.antt =====
-- pigate/pkg/messenger/messanger_interface.go, and how MQTTClient fills it.
use pigate.Prelude.{String, Bool, M}
use pigate.Messenger.Client
use pigate.Messenger.Client.{Token, Client}
use pigate.Messenger.Connection
use pigate.Messenger.Connection.{Library, MqttClient, subscriber}
use pigate.Messenger.Subscriptions.{
  subscribe_pigate_command, subscribe_pigate_status, subscribe_credential_status,
}

-- `H` is the type of the callbacks.
pub record MqttClientInterface (H : Type 0) : Type 1 where
  pub State : Type 0
  pub connect : M State (Unit {0})
  pub disconnect : State → State
  pub notify_new_credentials : M State (Unit {0})
  pub command_open : M State (Unit {0})
  pub command_lock_open : M State (Unit {0})
  pub command_close : M State (Unit {0})
  pub notify_gate_open : M State (Unit {0})
  pub notify_gate_locked_open : M State (Unit {0})
  pub notify_gate_closed : M State (Unit {0})
  pub is_connected : State → Bool
  pub subscribe_pigate_command : H → M State (Unit {0})
  pub subscribe_pigate_status : H → M State (Unit {0})
  pub subscribe_credential_status : H → M State (Unit {0})

-- `send` is `Publish` of the library.
module _ {H : Type 0} (lib : Library H)
    (send : String → Bool → String → lib.State → Token × lib.State) (location_id : String) where
  abbrev publisher : Client
  publisher = record { State = lib.State; send = send }

  -- What is done with the client of the library leaves the subscriptions as they are.
  abbrev through_client : M lib.State (Unit {0}) → M (MqttClient lib) (Unit {0})
  through_client m r = let (result, broker) = m r.broker in (result, record r { broker = broker })

  abbrev pub mqtt_client : MqttClientInterface H
  mqtt_client = record {
    State = MqttClient lib;
    connect = Connection.connect lib;
    disconnect = Connection.disconnect lib;
    notify_new_credentials = through_client (Client.notify_new_credentials publisher location_id);
    command_open = through_client (Client.command_open publisher location_id);
    command_lock_open = through_client (Client.command_lock_open publisher location_id);
    command_close = through_client (Client.command_close publisher location_id);
    notify_gate_open = through_client (Client.notify_gate_open publisher location_id);
    notify_gate_locked_open = through_client (Client.notify_gate_locked_open publisher location_id);
    notify_gate_closed = through_client (Client.notify_gate_closed publisher location_id);
    is_connected = Connection.is_connected lib;
    subscribe_pigate_command = subscribe_pigate_command (subscriber lib) location_id;
    subscribe_pigate_status = subscribe_pigate_status (subscriber lib) location_id;
    subscribe_credential_status = subscribe_credential_status (subscriber lib) location_id;
  }
