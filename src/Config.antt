-- ===== src/Config.antt =====
-- pigate/pkg/config/config.go, and how each program reads its configuration. The settings come
-- from viper, which reads the file and the environment, and the environment from `os.Getenv`: both
-- are parameters.
pub mod Secrets
use pigate.Prelude.{String, Bool, ◌<>◌, ℤ, Outcome, returns, panics, string_eq, ◌==◌, if◌then◌else◌}
use pigate.Database.Decimal.{sprintf}

-- `os.Getenv`.
abbrev pub Environment : Type 0
Environment = String → String

-- `GetString` and `GetInt` of the library after `AutomaticEnv`, `SetEnvPrefix` with a prefix, and
-- `ReadInConfig`: they read the environment as well as the file.
pub record Viper : Type 0 where
  pub get_string : String → Environment → String → String
  pub get_int : String → Environment → String → ℤ

pub record DbConfig : Type 0 where
  pub host : String
  pub port : ℤ
  pub name : String
  pub user : String
  pub password : String

pub record MqttConfig : Type 0 where
  pub broker : String
  pub username : String
  pub password : String

pub record CredentialServerConfig : Type 0 where
  pub mqtt : MqttConfig
  pub mqtt_broker : String
  pub location_id : String
  pub remote_db_table : String
  pub file_watcher_path : String
  pub db : DbConfig

pub record GateControllerConfig : Type 0 where
  pub mqtt : MqttConfig
  pub mqtt_broker : String
  pub location_id : String
  pub remote_db_table : String
  pub gate_open_duration : ℤ
  pub relay_pin : ℤ
  pub local_db_path : String
  pub db : DbConfig

pub record StatusServerConfig : Type 0 where
  pub mqtt : MqttConfig
  pub mqtt_broker : String
  pub location_id : String
  pub http_addr : String
  pub db : DbConfig

-- What `LoadConfig` returns as an `interface{}`; `fatal` is the end of the program.
pub data Config : Type 0 where
  credential_server : CredentialServerConfig → Config
  gate_controller : GateControllerConfig → Config
  status_server : StatusServerConfig → Config
  fatal : Config

-- `LoadConfig(path, application+"-config").(*config.CredentialServerConfig)`, and so on: the
-- assertion of another type panics.
abbrev as_credential_server : Config → Outcome CredentialServerConfig
as_credential_server (credential_server cfg) = returns cfg
as_credential_server _ = panics

abbrev as_gate_controller : Config → Outcome GateControllerConfig
as_gate_controller (gate_controller cfg) = returns cfg
as_gate_controller _ = panics

-- The status server replaces an empty address.
abbrev with_address : StatusServerConfig → StatusServerConfig
with_address cfg = if cfg.http_addr == "" then record cfg { http_addr = "127.0.0.1:8090" } else cfg

abbrev as_status_server : Config → Outcome StatusServerConfig
as_status_server (status_server cfg) = returns (with_address cfg)
as_status_server _ = panics

module _ (v : Viper) (env : Environment) where
  abbrev setting : String → String
  setting = v.get_string "PIGATE" env

  abbrev number : String → ℤ
  number = v.get_int "PIGATE" env

  -- A password stands in a variable of the environment, which a setting names.
  abbrev password_of : String → String
  password_of key = let name = setting key in if name == "" then "" else env name

  abbrev mqtt_config : MqttConfig
  mqtt_config = record {
    broker = setting "MQTT_BROKER";
    username = setting "MQTT_USERNAME";
    password = password_of "MQTT_PASSWORD_ENV";
  }

  abbrev db_config : DbConfig
  db_config = record {
    host = setting "DB_HOST";
    port = number "DB_PORT";
    name = setting "DB_NAME";
    user = setting "DB_USER";
    password = password_of "DB_PASSWORD_ENV";
  }

  abbrev credential_server_case : CredentialServerConfig
  credential_server_case = record {
    mqtt_broker = setting "MQTT_BROKER";
    location_id = setting "LOCATION_ID";
    file_watcher_path = setting "FILE_WATCHER_PATH";
    remote_db_table = setting "REMOTE_DB_TABLE";
    mqtt = mqtt_config;
    db = db_config;
  }

  abbrev gate_controller_case : GateControllerConfig
  gate_controller_case = record {
    mqtt_broker = setting "MQTT_BROKER";
    location_id = setting "LOCATION_ID";
    gate_open_duration = number "GATE_OPEN_DURATION";
    relay_pin = number "GATE_CONTROL_PIN";
    local_db_path = setting "DATABASE_PATH";
    remote_db_table = setting "REMOTE_DB_TABLE";
    mqtt = mqtt_config;
    db = db_config;
  }

  abbrev status_server_case : StatusServerConfig
  status_server_case = record {
    mqtt_broker = setting "MQTT_BROKER";
    location_id = setting "LOCATION_ID";
    http_addr = setting "HTTP_ADDR";
    mqtt = mqtt_config;
    db = db_config;
  }

  unfoldable pub load_config : String → Config
  load_config component =
      if component == "credentialserver-config"
      then credential_server credential_server_case
      else if component == "gatecontroller-config"
      then gate_controller gate_controller_case
      else if component == "statusserver-config"
      then status_server status_server_case
      else fatal

  unfoldable pub credential_server_config : Outcome CredentialServerConfig
  credential_server_config = as_credential_server (load_config ("credentialserver" <> "-config"))

  unfoldable pub gate_controller_config : Outcome GateControllerConfig
  gate_controller_config = as_gate_controller (load_config ("gatecontroller" <> "-config"))

  unfoldable pub status_server_config : Outcome StatusServerConfig
  status_server_config = as_status_server (load_config ("statusserver" <> "-config"))

-- `connString`, which the other two programs write out.
unfoldable pub conn_string : DbConfig → String
conn_string db =
    "host="
    <> db.host
    <> " port="
    <> sprintf db.port
    <> " user="
    <> db.user
    <> " password="
    <> db.password
    <> " dbname="
    <> db.name
    <> " sslmode=disable"
