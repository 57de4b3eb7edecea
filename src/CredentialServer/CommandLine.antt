-- ===== src/CredentialServer/CommandLine.antt =====
-- pigate/cmd/credentialserver/main.go, `main`: the words of the command line. The library that makes the
-- program a service of the operating system is a parameter.
use pigate.Prelude.{
  ◌≡◌, ◌≢◌, String, List, [], ◌∷◌, arith, Error, Result, ok, err, M, string_eq, ◌==◌, if◌then◌else◌,
}

-- What a `service.Service` does, with the state of the operating system and of the program.
pub record ServiceLibrary : Type 1 where
  pub State : Type 0
  pub install : M State (Unit {0})
  pub uninstall : M State (Unit {0})
  pub start : M State (Unit {0})
  pub stop : M State (Unit {0})
  pub run : M State (Unit {0})

-- The program returns, or `log.Fatalf` ends it.
pub data Ending : Type 0 where
  returned : Ending
  fatal : String → Error → Ending

module _ (lib : ServiceLibrary) where
  open lib use {State}

  abbrev ended : String → Result (Unit {0}) × State → Ending × State
  ended what (ok unit, s) = (returned, s)
  ended what (err e, s) = (fatal what e, s)

  abbrev pub run_normally : State → Ending × State
  run_normally s = ended "Service run failed" (lib.run s)

  -- The first word after the name of the program.
  unfoldable pub control : String → State → Ending × State
  control word s =
      if word == "install"
      then ended "Install failed" (lib.install s)
      else if word == "uninstall"
      then ended "Uninstall failed" (lib.uninstall s)
      else if word == "start"
      then ended "Start failed" (lib.start s)
      else if word == "stop"
      then ended "Stop failed" (lib.stop s)
      else run_normally s

  abbrev with_args : List String → State → Ending × State
  with_args [] s = run_normally s
  with_args (word ∷ rest) s = control word s

  abbrev with_service : Result (Unit {0}) → List String → State → Ending × State
  with_service (ok unit) args s = with_args args s
  with_service (err e) args s = (fatal "Failed to create service" e, s)

  -- `log_file` and `service` are what `os.OpenFile` and `service.New` give.
  unfoldable pub main : Result (Unit {0}) → Result (Unit {0}) → List String → State → Ending × State
  main (err e) service args s = (fatal "failed to open log file" e, s)
  main (ok unit) service args s = with_service service args s

  -- Any other word runs the service, as no word does.
  control-eq-run_normally :
      (word : String) (s : State)
      → word ≢ "install"
      → word ≢ "uninstall"
      → word ≢ "start"
      → word ≢ "stop"
      → control word s ≡ run_normally s
  unfolding control
  control-eq-run_normally word s i u a o = ground arith
