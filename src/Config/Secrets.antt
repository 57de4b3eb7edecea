-- ===== src/Config/Secrets.antt =====
-- What the configuration takes from the environment.
use pigate.Prelude.{
  ℤ, ◌≡◌, refl, ◌∙◌, ap, sym, arith, subst, String, ◌<>◌, List, [], ◌∷◌, All, returns, string_eq,
  ◌==◌, if◌then◌else◌,
}
use pigate.Config.{
  Viper, Environment, CredentialServerConfig, DbConfig, GateControllerConfig, StatusServerConfig,
  credential_server_case, gate_controller_case, status_server_case, with_address, password_of,
  db_config, load_config, credential_server_config, gate_controller_config, status_server_config,
}

-- A variable of the environment that is set and not empty goes before the file.
abbrev pub first_of : String → String → String
first_of variable in_file = if variable == "" then in_file else variable

-- What the library says of its settings: the variable of the prefix and the key goes before the
-- file, and an integer is read from the same text.
pub record ReadsEnvironment (v : Viper) : Type 0 where
  pub file : String → String
  pub to_int : String → ℤ
  pub strings :
      (prefix : String) (env : Environment) (key : String)
      → v.get_string prefix env key ≡ first_of (env (prefix <> "_" <> key)) (file key)
  pub ints :
      (prefix : String) (env : Environment) (key : String)
      → v.get_int prefix env key ≡ to_int (v.get_string prefix env key)

-- The names of the settings.
abbrev pub keys : List String
keys =
    "MQTT_BROKER" ∷ "MQTT_USERNAME" ∷ "MQTT_PASSWORD_ENV" ∷ "DB_HOST" ∷ "DB_PORT" ∷ "DB_NAME"
    ∷ "DB_USER" ∷ "DB_PASSWORD_ENV" ∷ "LOCATION_ID" ∷ "FILE_WATCHER_PATH" ∷ "REMOTE_DB_TABLE"
    ∷ "GATE_OPEN_DURATION" ∷ "GATE_CONTROL_PIN" ∷ "DATABASE_PATH" ∷ "HTTP_ADDR" ∷ []

with_address-db : (cfg : StatusServerConfig) → (with_address cfg).db ≡ cfg.db
with_address-db cfg = ground arith

module _ (v : Viper) (r : ReadsEnvironment v) where
  -- The value of a setting.
  abbrev pub value : Environment → String → String
  value env key = first_of (env ("PIGATE" <> "_" <> key)) (r.file key)

  -- The secret that a setting names.
  abbrev pub secret : Environment → String → String
  secret env key = if value env key == "" then "" else env (value env key)

  abbrev pub db_of : Environment → DbConfig
  db_of env = record {
    host = value env "DB_HOST";
    port = r.to_int (value env "DB_PORT");
    name = value env "DB_NAME";
    user = value env "DB_USER";
    password = secret env "DB_PASSWORD_ENV";
  }

  db_config-eq : (env : Environment) → db_config v env ≡ db_of env
  db_config-eq env =
      let s = r.strings "PIGATE" env in
      rw
        (
          r.ints "PIGATE" env "DB_PORT",
          s "DB_HOST",
          s "DB_PORT",
          s "DB_NAME",
          s "DB_USER",
          s "DB_PASSWORD_ENV",
        )
        refl

  module _ (env env' : Environment) where
    -- The environments agree on the variable of a setting.
    abbrev pub Agrees : String → Type 0
    Agrees key = env ("PIGATE" <> "_" <> key) ≡ env' ("PIGATE" <> "_" <> key)

    same_string :
        (key : String) → Agrees key → v.get_string "PIGATE" env key ≡ v.get_string "PIGATE" env' key
    same_string key h =
        r.strings "PIGATE" env key
        ∙ ap (λ x. first_of x (r.file key)) h
        ∙ sym (r.strings "PIGATE" env' key)

    same_int :
        (key : String) → Agrees key → v.get_int "PIGATE" env key ≡ v.get_int "PIGATE" env' key
    same_int key h =
        r.ints "PIGATE" env key ∙ ap r.to_int (same_string key h) ∙ sym (r.ints "PIGATE" env' key)

    same_secret :
        (key : String)
        → Agrees key
        → env (value env key) ≡ env' (value env key)
        → password_of v env key ≡ password_of v env' key
    same_secret key h named =
        let q = subst (λ name. env name ≡ env' name) (sym (r.strings "PIGATE" env key)) named in
        rw (q, same_string key h) refl

    load_config-same :
        All Agrees keys
        → env (value env "MQTT_PASSWORD_ENV") ≡ env' (value env "MQTT_PASSWORD_ENV")
        → env (value env "DB_PASSWORD_ENV") ≡ env' (value env "DB_PASSWORD_ENV")
        → (component : String) → load_config v env component ≡ load_config v env' component
    unfolding load_config
    load_config-same (b, (u, (m, (h, (p, (n, (w, (d, (l, (f, (t, (g, (c, (a, (i, z)))))))))))))))
          mqtt db component =
        rw
          (
            same_secret "MQTT_PASSWORD_ENV" m mqtt,
            same_secret "DB_PASSWORD_ENV" d db,
            same_string "MQTT_BROKER" b,
            same_string "MQTT_USERNAME" u,
            same_string "DB_HOST" h,
            same_int "DB_PORT" p,
            same_string "DB_NAME" n,
            same_string "DB_USER" w,
            same_string "LOCATION_ID" l,
            same_string "FILE_WATCHER_PATH" f,
            same_string "REMOTE_DB_TABLE" t,
            same_int "GATE_OPEN_DURATION" g,
            same_int "GATE_CONTROL_PIN" c,
            same_string "DATABASE_PATH" a,
            same_string "HTTP_ADDR" i,
          )
          refl

    -- For a library that reads a variable of the prefix `PIGATE` before the file: in two environments
    -- that agree on the `PIGATE_` variables of all fifteen settings, and on the two variables that the
    -- settings `MQTT_PASSWORD_ENV` and `DB_PASSWORD_ENV` name, `LoadConfig` returns the same for every
    -- component. Each program gets a configuration of its own type, so that its type assertion does
    -- not panic, and it gets the same one in both. The database in it has the values of the settings
    -- `DB_HOST`, `DB_PORT`, `DB_NAME` and `DB_USER`, each from its `PIGATE_` variable where that is set
    -- and not empty, and else from the file; its password is the variable that `DB_PASSWORD_ENV` names,
    -- and empty where no variable is named.
    pub load_config_lem :
        All Agrees keys
        → env (value env "MQTT_PASSWORD_ENV") ≡ env' (value env "MQTT_PASSWORD_ENV")
        → env (value env "DB_PASSWORD_ENV") ≡ env' (value env "DB_PASSWORD_ENV")
        → ((component : String) → load_config v env component ≡ load_config v env' component)
          × ((c : CredentialServerConfig) × (credential_server_config v env ≡ returns c)
              × (credential_server_config v env' ≡ returns c)
              × (c.db ≡ db_of env))
          × ((c : GateControllerConfig) × (gate_controller_config v env ≡ returns c)
              × (gate_controller_config v env' ≡ returns c)
              × (c.db ≡ db_of env))
          × ((c : StatusServerConfig) × (status_server_config v env ≡ returns c)
              × (status_server_config v env' ≡ returns c)
              × (c.db ≡ db_of env))
    load_config_lem agree mqtt db =
        let same = load_config-same agree mqtt db in
        let values = db_config-eq env in
        unfold credential_server_config gate_controller_config status_server_config in
        (
          same,
          (
            credential_server_case v env,
            unfold load_config string_eq in refl,
            rw⁻¹ (same ("credentialserver" <> "-config")) (unfold load_config string_eq in refl),
            values,
          ),
          (
            gate_controller_case v env,
            unfold load_config string_eq in refl,
            rw⁻¹ (same ("gatecontroller" <> "-config")) (unfold load_config string_eq in refl),
            values,
          ),
          (
            with_address (status_server_case v env),
            unfold load_config string_eq in refl,
            rw⁻¹ (same ("statusserver" <> "-config")) (unfold load_config string_eq in refl),
            with_address-db (status_server_case v env) ∙ values,
          ),
        )
