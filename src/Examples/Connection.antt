-- ===== src/Examples/Connection.antt =====
-- A library of the broker that copies its options, and the words of a command line.
use pigate.Prelude.{
  ℕ, ◌*◌, ◌≤◌, ◌<◌, ◌≡◌, refl, ◌↔◌, pos, negsuc, String, true, false, none, List, [], ◌∷◌, service,
  ok, err, string_eq,
}
use pigate.Messenger.Client.{in_time, late}
use pigate.Messenger.Subscriptions.{subscribe_each}
use pigate.Messenger.Connection.{
  ClientOptions, Library, CopiesOptions, subscriber, new_mqtt_client_with_credentials, connect,
  on_connected, on_connected-subscribe_each,
}
use pigate.CredentialServer.CommandLine.{ServiceLibrary, returned, fatal, main, control}
use pigate.Gate.Controller.{sleep}
use pigate.Gate.Duration.{slept, nanoseconds, slept_lem}

abbrev plain_options : ClientOptions
plain_options = record {
  servers = [];
  client_id = "";
  username = "";
  password = "";
  clean_session = true;
  auto_reconnect = true;
  connect_retry = false;
  connect_retry_interval = 30;
  on_connect = none;
  on_connection_lost = none;
}

-- Its state is its options and the topics that it was asked for. The first connection is late.
abbrev library : Library ℕ
library = record {
  State = ClientOptions × List String;
  defaults = plain_options;
  new_client = λ o. (o, []);
  connect = λ s. (late, s);
  disconnect = λ n s. s;
  is_connection_open = λ s. true;
  subscribe = λ topic callback s. (in_time (ok tt), (s.0, topic ∷ s.1));
  handler = λ s. (s.0).on_connect;
}

library-CopiesOptions : CopiesOptions library
library-CopiesOptions = record {
  no_default = refl;
  copied = λ o. refl;
  connect_keeps = λ s. refl;
  subscribe_keeps = λ topic callback s. refl;
}

on_connected-subscribe_each_example :
    let made = (new_mqtt_client_with_credentials library "tcp://broker:1883" "gate" "" "").0 in
    let r =
      subscribe_each
        (subscriber library)
        (("north/pigate/command", 1) ∷ [])
        (connect library made).1 in
    on_connected library (("north/pigate/command", 1) ∷ []) r ≡ r
on_connected-subscribe_each_example =
    on_connected-subscribe_each library library-CopiesOptions "tcp://broker:1883" "gate" "" ""
      (("north/pigate/command", 1) ∷ []) (("north/pigate/command", 1) ∷ [])

abbrev services : ServiceLibrary
services = record {
  State = List String;
  install = λ s. (ok tt, "install" ∷ s);
  uninstall = λ s. (err service, s);
  start = λ s. (ok tt, "start" ∷ s);
  stop = λ s. (ok tt, "stop" ∷ s);
  run = λ s. (ok tt, "run" ∷ s);
}

command_lines :
    (main services (ok tt) (ok tt) ("uninstall" ∷ []) [] ≡ (fatal "Uninstall failed" service, []))
    × (main services (ok tt) (ok tt) [] [] ≡ (returned, "run" ∷ []))
unfolding main control string_eq
command_lines = (refl, refl)

-- A second more than the longest duration is not slept at all.
too_long : slept (pos 9223372037) ≡ 0
unfolding nanoseconds
too_long = refl

slept_lem_example :
    ((slept (pos 10) ≡ sleep (pos 10) * 1000000000) ↔ (10 ≤ 9223372036))
    × (10 < 9223372036 → slept (negsuc 10) ≡ sleep (negsuc 10) * 1000000000)
slept_lem_example = slept_lem 10
