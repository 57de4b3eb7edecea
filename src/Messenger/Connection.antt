-- ===== src/Messenger/Connection.antt =====
-- pigate/pkg/messenger/messanger.go, `MQTTClient`: how it is made, and its connection. The library is a
-- parameter. `H` is the type of the callbacks.
use pigate.Prelude.{
  ℕ, ◌≡◌, refl, ◌∙◌, String, Bool, true, false, Option, none, some, List, [], ◌∷◌, ◌++◌, M,
  string_eq, ◌==◌, if◌then◌else◌,
}
use pigate.Messenger.Client.{Token, wait_for_token}
use pigate.Messenger.Subscriptions.{
  Subscriber, Subscriptions, subscribe_topic, subscribe_each, resubscribe_all,
}

-- The two handlers: one that calls `resubscribeAll`, and one that logs the loss of the connection.
pub data Handler : Type 0 where
  resubscribes logs : Handler

-- The fields of `mqtt.ClientOptions` that the code sets; the interval is in seconds.
pub record ClientOptions : Type 0 where
  pub servers : List String
  pub client_id : String
  pub username : String
  pub password : String
  pub clean_session : Bool
  pub auto_reconnect : Bool
  pub connect_retry : Bool
  pub connect_retry_interval : ℕ
  pub on_connect : Option Handler
  pub on_connection_lost : Option Handler

-- `defaults` is `NewClientOptions()`. `handler` is what the client calls when it is connected.
pub record Library (H : Type 0) : Type 1 where
  pub State : Type 0
  pub defaults : ClientOptions
  pub new_client : ClientOptions → State
  pub connect : State → Token × State
  pub disconnect : ℕ → State → State
  pub is_connection_open : State → Bool
  pub subscribe : String → H → State → Token × State
  pub handler : State → Option Handler

-- `NewClient` copies its options, and nothing changes the copy; no handler is set by default.
pub record CopiesOptions {H : Type 0} (lib : Library H) : Type 0 where
  pub no_default : lib.defaults.on_connect ≡ none
  pub copied : (o : ClientOptions) → lib.handler (lib.new_client o) ≡ o.on_connect
  pub connect_keeps : (s : lib.State) → lib.handler (lib.connect s).1 ≡ lib.handler s
  pub subscribe_keeps :
      (topic : String) (callback : H) (s : lib.State)
      → lib.handler (lib.subscribe topic callback s).1 ≡ lib.handler s

module _ {H : Type 0} (lib : Library H) where
  abbrev pub subscriber : Subscriber H
  subscriber = record { State = lib.State; subscribe = lib.subscribe }

  abbrev pub MqttClient : Type 0
  MqttClient = Subscriptions subscriber

  -- The options at the call of `NewClient`.
  abbrev options : String → String → String → String → ClientOptions
  options broker client_id username password = record (lib.defaults) {
    servers = lib.defaults.servers ++ broker ∷ [];
    client_id = client_id;
    username = if username == "" then lib.defaults.username else username;
    password = if password == "" then lib.defaults.password else password;
    clean_session = false;
    auto_reconnect = true;
    connect_retry = true;
    connect_retry_interval = 30;
  }

  -- The client, and the options as they are then, with the handlers that are set after it is made.
  unfoldable pub new_mqtt_client_with_credentials :
      String → String → String → String → MqttClient × ClientOptions
  new_mqtt_client_with_credentials broker client_id username password =
      let opts = options broker client_id username password in
      (
        record { handlers = []; broker = lib.new_client opts },
        record opts { on_connect = some resubscribes; on_connection_lost = some logs },
      )

  unfoldable pub new_mqtt_client : String → String → MqttClient × ClientOptions
  unfolding new_mqtt_client_with_credentials
  new_mqtt_client broker client_id = new_mqtt_client_with_credentials broker client_id "" ""

  unfoldable pub connect : M MqttClient (Unit {0})
  connect r =
      let (token, broker) = lib.connect r.broker in
      (wait_for_token "connect to MQTT broker" token, record r { broker = broker })

  -- 250 milliseconds are left to what is under way.
  unfoldable pub disconnect : MqttClient → MqttClient
  disconnect r = record r { broker = lib.disconnect 250 r.broker }

  unfoldable pub is_connected : MqttClient → Bool
  is_connected r = lib.is_connection_open r.broker

  -- The connection is there, for the first time or again. `order` is the walk over the map.
  abbrev called : Option Handler → List (String × H) → MqttClient → MqttClient
  called (some resubscribes) order r = resubscribe_all subscriber order r
  called other order r = r

  unfoldable pub on_connected : List (String × H) → MqttClient → MqttClient
  on_connected order r = called (lib.handler r.broker) order r

  handler-subscribe_each :
      CopiesOptions lib
      → (calls : List (String × H)) (r : MqttClient)
      → lib.handler (subscribe_each subscriber calls r).broker ≡ lib.handler r.broker
  unfolding subscribe_each subscribe_topic
  handler-subscribe_each c [] r = refl
  handler-subscribe_each c ((topic, callback) ∷ rest) r =
      handler-subscribe_each c rest _ ∙ c.subscribe_keeps topic callback r.broker

  -- With a library that copies the options when the client is made, a client that has been made, has
  -- connected and has subscribed, whatever was answered, subscribes to nothing when its connection
  -- comes back: the handler that would is set after the client is made.
  pub on_connected-subscribe_each :
      CopiesOptions lib
      → (broker client_id username password : String) (calls order : List (String × H))
      → let made = (new_mqtt_client_with_credentials broker client_id username password).0 in
        let r = subscribe_each subscriber calls (connect made).1 in on_connected order r ≡ r
  unfolding on_connected connect new_mqtt_client_with_credentials
  on_connected-subscribe_each c broker client_id username password calls order =
      let made = (new_mqtt_client_with_credentials broker client_id username password).0 in
      let none_set =
        handler-subscribe_each c calls (connect made).1
        ∙ c.connect_keeps made.broker
        ∙ c.copied _
        ∙ c.no_default in
      rw none_set refl
