-- ===== src/GateProgram/Running.antt =====
-- What holds of the program as long as it runs.
use pigate.Prelude.{
  ℕ, ℤ, ◌≡◌, refl, sym, inl, inr, subst, some, String, List, [], ◌∷◌, arith, All, Outcome, returns,
  get_elem?, Option-cases, Bool-cases, leb, pointer_cases,
}
use pigate.Database.Models.{Time}
use pigate.Database.Sqlite
use pigate.Database.Sqlite.{Local}
use pigate.Database.Sqlite.AccessTimes.{HasValidTimes}
use pigate.Database.Sqlite.Invariant.{IsValid, get_credential-tables, get_access_time-tables}
use pigate.Database.Managers.{sqlite_access_manager}
use pigate.Database.Updater.{Sides, handle_update_notification}
use pigate.Database.Updater.Validity.{AreValid, update-AreValid}
use pigate.Messenger.Client.{Client}
use pigate.Gate.Controller.{
  GateController, wake_up, set_status_notifier, init_pin_control, new_gate_controller,
}
use pigate.Gate.World.{World, Event, enters, receives, step, run}
use pigate.Gate.World.Invariant.{shown, run-Shows}
use pigate.Gate.Access.{open_gate, validate_credential, is_lock_code}
use pigate.Gate.Access.Safety.{open_gate-decide}
use pigate.Gate.Access.Local.{local_manager, open_gate_returns}
use pigate.Gate.Keypad.Reader
use pigate.Gate.Keypad.Reader.{Reader}
use pigate.Gate.Keypad.Reader.Invariant.{Inv, run-Inv, new_keypad_reader-Inv}
use pigate.GateProgram.{
  Program, ProgramEvent, keys, announces, ticks, credential_status, command, wakes, remote_changes,
  on_code, on_codes, hear, synchronise, on_credential_status, on_command, happen, go_on, announce,
  begin, start_up,
}

validate_credential-tables :
    (code : String) (now : Time) (db : Local)
    → (validate_credential local_manager code now db).1.tables ≡ db.tables
unfolding validate_credential
validate_credential-tables code now db =
    let first = get_credential-tables code db in
    elim (pointer_cases (Sqlite.get_credential code db).0) [
      | inl (e, failed) ↦ ground (arith, first)
      | inr (inl nil) ↦ ground (arith, first)
      | inr (inr (c, found)) ↦
          let after = (Sqlite.get_credential code db).1 in
          let second = get_access_time-tables c.access_group after in
          elim (pointer_cases (Sqlite.get_access_time c.access_group after).0) [
            | inl (e, failed) ↦ ground (arith, first, second)
            | inr (inl nil) ↦ ground (arith, first, second)
            | inr (inr (at, window)) ↦ ground (arith, first, second)
          ]
    ]

is_lock_code-tables :
    (code : String) (db : Local) → (is_lock_code local_manager code db).1.tables ≡ db.tables
unfolding is_lock_code
is_lock_code-tables code db = ground (arith, get_credential-tables code db)

-- `Open` reads the local database.
open_gate-tables :
    (code : String) (now : Time) (instant : ℕ) (g : GateController) (db : Local)
    → (open_gate local_manager code now instant g db).1.tables ≡ db.tables
unfolding open_gate
open_gate-tables code now instant g db =
    let first = validate_credential-tables code now db in
    let second = is_lock_code-tables code (validate_credential local_manager code now db).1 in
    ground (arith, first, second)

-- The relay and the LED of a gate show its state.
pub record Displays (g : GateController) : Type 0 where
  pub pin_shows : g.pin ≡ some (shown g.state)
  pub led_shows : g.led_pin ≡ some (shown g.state)

abbrev world_of : ℕ → GateController → World
world_of now g = record { gate = g; now = now; published = []; lost = []; opened_at = 0 }

step-Displays :
    (e : Event) (now : ℕ) (g : GateController)
    → Displays g
    → Displays (step e (world_of now g)).gate
unfolding run
step-Displays e now g d =
    let shows =
      run-Shows (e ∷ []) (world_of now g)
        (record { pin_shows = d.pin_shows; led_shows = d.led_shows }) in
    record { pin_shows = shows.pin_shows; led_shows = shows.led_shows }

wake_up-Displays : (g : GateController) → Displays g → Displays (wake_up g)
unfolding wake_up
wake_up-Displays g d = ground arith

module _ (client : Client) where
  pub record IsRunning (p : Program client) : Type 0 where
    pub databases : AreValid p.sides
    pub gate : Displays p.gate
    pub reader : Inv p.reader

  -- Nothing that others write into the remote database is no time of Go.
  abbrev pub IsTimely : ProgramEvent client → Type 0
  IsTimely (remote_changes db) = All HasValidTimes db.tables.access_times
  IsTimely _ = Unit

  -- It goes on, and what holds of it still does.
  abbrev pub GoesOn : Outcome (Program client) → Type 0
  GoesOn o = (p' : Program client) × (o ≡ returns p') × IsRunning p'

  on_code-GoesOn :
      (code : String) (now : Time) (instant : ℕ) (p : Program client)
      → IsRunning p
      → GoesOn (on_code client code now instant p)
  unfolding on_code
  on_code-GoesOn code now instant p r =
      let (g, fine) = open_gate_returns code now instant p.gate p.sides.near in
      let near = (open_gate local_manager code now instant p.gate p.sides.near).1 in
      let (d, same) = open_gate-decide local_manager code now p.sides.near instant p.gate g fine in
      let kept = open_gate-tables code now instant p.gate p.sides.near in
      (
        record p { gate = g; sides = record (p.sides) { near = near } },
        ground (arith, fine),
        record {
          databases = record {
            near_valid = subst IsValid (sym kept) r.databases.near_valid;
            times_valid = r.databases.times_valid;
          };
          gate =
              subst Displays (sym same)
                (unfold step in step-Displays (enters d) instant p.gate r.gate);
          reader = r.reader;
        },
      )

  on_codes-GoesOn :
      (codes : List String) (now : Time) (instant : ℕ) (p : Program client)
      → IsRunning p
      → GoesOn (on_codes client codes now instant p)
  unfolding on_codes
  on_codes-GoesOn [] now instant p r = (p, refl, r)
  on_codes-GoesOn (code ∷ codes) now instant p r =
      let (p', fine, r') = on_code-GoesOn code now instant p r in
      rw (on_codes, fine) (on_codes-GoesOn codes now instant p' r')

  happen-GoesOn :
      (e : ProgramEvent client) (p : Program client)
      → IsTimely e
      → IsRunning p
      → GoesOn (happen client e p)
  unfolding happen hear announce synchronise on_credential_status on_command
      handle_update_notification
  happen-GoesOn (keys events now instant) p t r =
      on_codes-GoesOn _ now instant (record p { reader = Reader.run events p.reader })
        (record {
          databases = r.databases;
          gate = r.gate;
          reader = run-Inv events p.reader r.reader;
        })
  happen-GoesOn (announces location) p t r = (
    _,
    refl,
    record {
      databases = r.databases;
      gate =
          unfold set_status_notifier in
          record { pin_shows = r.gate.pin_shows; led_shows = r.gate.led_shows };
      reader = r.reader;
    },
  )
  happen-GoesOn ticks p t r = (
    _,
    refl,
    record { databases = update-AreValid p.sides r.databases; gate = r.gate; reader = r.reader },
  )
  happen-GoesOn (credential_status topic message) p t r = (
    _,
    refl,
    record { databases = update-AreValid p.sides r.databases; gate = r.gate; reader = r.reader },
  )
  happen-GoesOn (command now message) p t r = (
    _,
    refl,
    record {
      databases = r.databases;
      gate = unfold step in step-Displays (receives message) now p.gate r.gate;
      reader = r.reader;
    },
  )
  happen-GoesOn (wakes now i) p t r = elim (Option-cases (get_elem? p.gate.timers i)) [
    | inl gone ↦ rw gone (p, refl, r)
    | inr (due, found) ↦ elim (Bool-cases (leb due now)) [
      | inr early ↦ rw (found, early) (p, refl, r)
      | inl awake ↦
          rw (found, awake)
            (
              _,
              refl,
              record {
                databases = r.databases;
                gate =
                    wake_up-Displays _
                      (record { pin_shows = r.gate.pin_shows; led_shows = r.gate.led_shows });
                reader = r.reader;
              },
            )
    ]
  ]
  happen-GoesOn (remote_changes db) p t r = (
    _,
    refl,
    record {
      databases = record { near_valid = r.databases.near_valid; times_valid = t };
      gate = r.gate;
      reader = r.reader;
    },
  )

  go_on-GoesOn :
      (es : List (ProgramEvent client)) (p : Program client)
      → All IsTimely es
      → IsRunning p
      → GoesOn (go_on client es p)
  unfolding go_on
  go_on-GoesOn [] p t r = (p, refl, r)
  go_on-GoesOn (e ∷ es) p (t, ts) r =
      let (p', fine, r') = happen-GoesOn e p t r in rw (go_on, fine) (go_on-GoesOn es p' ts r')

  begin-IsRunning :
      (duration : ℤ) (sides : Sides sqlite_access_manager) (mqtt : client.State)
      → AreValid sides
      → IsRunning (begin client duration sides mqtt)
  unfolding begin init_pin_control new_gate_controller Reader.run
  begin-IsRunning duration sides mqtt v = record {
    databases = v;
    gate = record { pin_shows = refl; led_shows = refl };
    reader = new_keypad_reader-Inv [];
  }

  -- Steps 6 and 7 are events, too.
  go_on-begin :
      (location : String) (duration : ℤ) (sides : Sides sqlite_access_manager) (mqtt : client.State)
      (es : List (ProgramEvent client))
      → go_on client (announces location ∷ ticks ∷ es) (begin client duration sides mqtt)
        ≡ go_on client es (start_up client location duration sides mqtt)
  unfolding go_on happen start_up
  go_on-begin location duration sides mqtt es = refl

  -- The program starts with a valid local database (no code and no group twice, only the two open
  -- modes, only texts that read back as times) and a remote one whose access times are times of Go.
  -- From step 5 on, before the gate has its notifier, as well as from a start in which nothing else
  -- happens, keys, the daily ticker, notifications, commands, goroutines that close the gate, and changes of
  -- the remote database that write times of Go only may happen in any order, and any calls to the two
  -- databases may fail: the program does not panic, its local database is valid, the relay and the LED
  -- show the state of the gate, and the reader is in one of the states of its invariant.
  pub go_on-start_up :
      (location : String) (duration : ℤ) (sides : Sides sqlite_access_manager) (mqtt : client.State)
      (es : List (ProgramEvent client))
      → AreValid sides
      → All IsTimely es
      → GoesOn (go_on client es (begin client duration sides mqtt))
        × GoesOn (go_on client es (start_up client location duration sides mqtt))
  go_on-start_up location duration sides mqtt es v ts =
      let begun = begin-IsRunning duration sides mqtt v in
      (
        go_on-GoesOn es _ ts begun,
        subst GoesOn (go_on-begin location duration sides mqtt es)
            (go_on-GoesOn (announces location ∷ ticks ∷ es) _ (tt, (tt, ts)) begun),
      )
