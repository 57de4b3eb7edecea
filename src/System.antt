-- ===== src/System.antt =====
-- The gate, the broker and the status server together: pigate/cmd/gatecontroller/main.go and
-- pigate/cmd/statusserver/main.go over pigate/pkg/messenger/messanger.go. The broker delivers the
-- messages of a topic in the order in which it has got them to those that it has as subscribers, and
-- keeps the last one that is retained for a subscription that comes later.
pub mod Statuses
pub mod Telling
pub mod Showing
pub mod Commanding
pub mod Updating
use pigate.Prelude.{
  ℕ, ◌≡◌, refl, Bool, true, false, not, is_nil, ◌&&◌, ◌||◌, if◌then◌else◌, String, Option, none,
  some, List, [], ◌∷◌, ◌++◌, ℤ, Result, ok, err, M, map,
}
use pigate.Messenger.Messages.{
  topic_pigate_status, topic_credentials_status, status_opened, status_locked_open, status_closed,
}
use pigate.Messenger.Client.{
  Client, publish, notify_gate_open, notify_gate_locked_open, notify_gate_closed,
}
use pigate.Gate.Controller.{
  GateState, Status, gate_open, gate_locked_open, gate_closed, new_gate_controller,
  init_pin_control, set_status_notifier,
}
use pigate.Gate.World.{Event, World, receives, publishes, fails, step}
use pigate.Gate.World.Notices.{change}
use pigate.Status.Store.{StatusStore}
use pigate.Status.Commands.{normalize_command}
use pigate.Status.Server.{
  App, Response, accepted, on_gate_status, on_credential_status, handle_command,
}
use pigate.Status.Page.{start_up}

-- The three methods of the messenger that the controller calls as its notifier.
unfoldable pub call_notifier : (client : Client) → String → Status → M client.State (Unit {0})
call_notifier client location gate_open = notify_gate_open client location
call_notifier client location gate_locked_open = notify_gate_locked_open client location
call_notifier client location gate_closed = notify_gate_closed client location

-- What they publish.
abbrev pub payload_of : Status → String
payload_of gate_open = status_opened
payload_of gate_locked_open = status_locked_open
payload_of gate_closed = status_closed

pub call_notifier-publish :
    (client : Client) (location : String) (status : Status) (s : client.State)
    → call_notifier client location status s
      ≡ publish client (topic_pigate_status location) true (payload_of status) s
unfolding call_notifier notify_gate_open notify_gate_locked_open notify_gate_closed
call_notifier-publish client location gate_open s = refl
call_notifier-publish client location gate_locked_open s = refl
call_notifier-publish client location gate_closed s = refl

-- The payload that a request of the page stands for.
abbrev payload_in : Result (String × String) → List String
payload_in (err e) = []
payload_in (ok (command, payload)) = payload ∷ []

abbrev pub payload_for : Option String → List String
payload_for none = []
payload_for (some command) = payload_in (normalize_command command)

-- A gate program after step 4: closed, and without a notifier.
unfoldable pub new_world : ℤ → ℕ → World
unfolding new_gate_controller init_pin_control
new_world duration now = record {
  gate = init_pin_control (new_gate_controller duration);
  now = now;
  published = [];
  lost = [];
  opened_at = 0;
}

-- How far `main` of the gate program has come: up to `SetStatusNotifier`, up to `NotifyGateClosed`,
-- up to `SubscribePigateCommand`, and from there on.
pub data Phase : Type 0 where
  silent notified told serving : Phase

-- Its first status is published.
abbrev pub has_told : Phase → Bool
has_told silent = false
has_told notified = false
has_told told = true
has_told serving = true

abbrev pub is_changed : GateState → GateState → Bool
is_changed before after = not (is_nil (change before after))

-- Whether a change of the state came before the first status, and none has come since.
abbrev pub early_after : Phase → Bool → Bool → Bool
early_after phase early moved = if has_told phase then early && not moved else early || moved

-- A message for a subscriber, if there is one.
abbrev pub deliver : Bool → String → List String → List String
deliver true message messages = messages ++ message ∷ []
deliver false message messages = messages

-- What a program of the gate does by itself: neither a message nor a publication.
abbrev pub Acts : Event → Type 0
Acts (receives message) = ⊥
Acts (publishes i) = ⊥
Acts (fails i) = ⊥
Acts _ = Unit

module _ (client : Client) (is_connected : client.State → Bool) (location : String) where
  -- `retained` holds the last message of the status topic, once there is one, and `listening` whether
  -- the broker has the status server as a subscriber of it. `arriving` are the messages on their way to
  -- the status server, and `commands` those of the command topic on their way to the gate. No program
  -- reads `early`.
  pub record System : Type 0 where
    pub world : World
    pub phase : Phase
    pub early : Bool
    pub retained : List String
    pub arriving : List String
    pub listening : Bool
    pub commands : List String
    pub app : App client

  -- The gate program begins, and so will the status server; the broker has no status yet.
  abbrev pub begun : ℤ → ℕ → App client → System
  begun duration now app = record {
    world = new_world duration now;
    phase = silent;
    early = false;
    retained = [];
    arriving = [];
    listening = false;
    commands = [];
    app = app;
  }

  -- The gate goes on by an event.
  abbrev pub gate_step : Event → System → System
  gate_step e s = record s {
    world = step e s.world;
    early = early_after s.phase s.early (is_changed s.world.gate.state (step e s.world).gate.state);
  }

  -- The broker gets a status of the gate.
  abbrev pub take_status : Status → System → System
  take_status status s = record s {
    retained = payload_of status ∷ [];
    arriving = deliver s.listening (payload_of status) s.arriving;
  }

  -- A goroutine of the gate publishes its status.
  abbrev pub publish_status : Status → System → System
  publish_status status s = take_status status (record s { world = step (publishes 0) s.world })

  abbrev pub receive_command : String → List String → System → System
  receive_command command rest s = gate_step (receives command) (record s { commands = rest })

  abbrev pub hear_status : String → List String → ℕ → System → System
  hear_status status rest now s = record s {
    arriving = rest;
    app = on_gate_status client (topic_pigate_status location) status now s.app;
  }

  abbrev pub restart_page : List String → Bool → StatusStore → client.State → System → System
  restart_page kept listens store mqtt s = record s {
    arriving = kept ++ (if listens then s.retained else []);
    listening = listens;
    app = start_up client is_connected location store mqtt;
  }

  -- What happens next, in any order. No publication of the gate fails, and its goroutines publish in
  -- the order in which they were started.
  pub data Step : System → System → Type 0 where
    -- A program that ends loses its goroutines.
    gate_starts :
        (s : System) (duration : ℤ) (now : ℕ)
        → Step s (record s { world = new_world duration now; phase = silent; early = false })
    gate_sets_notifier :
        (s : System)
        → s.phase ≡ silent
        → Step s (record s {
          world = record (s.world) { gate = set_status_notifier s.world.gate };
          phase = notified;
        })
    -- `NotifyGateClosed` of `main`, whatever the state is.
    gate_tells :
        (s : System)
        → s.phase ≡ notified
        → Step s (record (take_status gate_closed s) { phase = told })
    gate_subscribes : (s : System) → s.phase ≡ told → Step s (record s { phase = serving })
    -- The broker has lost the session of the gate, which does not subscribe again.
    gate_is_forgotten : (s : System) → s.phase ≡ serving → Step s (record s { phase = told })
    -- Codes, time, timers, and the shutting of the gate, whether it has its notifier or not.
    gate_acts : (s : System) (e : Event) → Acts e → Step s (gate_step e s)
    gate_publishes :
        (s : System) (status : Status) (rest : List Status)
        → s.world.gate.notices ≡ status ∷ rest
        → Step s (publish_status status s)
    gate_receives :
        (s : System) (command : String) (rest : List String)
        → s.phase ≡ serving
        → s.commands ≡ command ∷ rest
        → Step s (receive_command command rest s)
    page_hears :
        (s : System) (status : String) (rest : List String) (now : ℕ)
        → s.arriving ≡ status ∷ rest
        → Step s (hear_status status rest now s)
    page_hears_credentials :
        (s : System) (status : String) (now : ℕ)
        → Step s (record s {
          app = on_credential_status client (topic_credentials_status location) status now s.app;
        })
    -- The payload of a command that is accepted comes to the gate; one whose publication has failed
    -- may come or not.
    page_commands :
        (s : System) (body : Option String) (now : ℕ) (command : String)
        → (handle_command client body now s.app).0 ≡ accepted command
        → Step s (record s {
          commands = s.commands ++ payload_for body;
          app = (handle_command client body now s.app).1;
        })
    page_fails :
        (s : System) (body : Option String) (now : ℕ) (came : List String)
        → Step s (record s {
          commands = s.commands ++ came;
          app = (handle_command client body now s.app).1;
        })
    -- Commands on their way are lost, come twice, or are others.
    commands_change :
        (s : System) (commands : List String) → Step s (record s { commands = commands })
    -- After a connection that was lost, but not its session, the broker sends again what was not
    -- acknowledged, in order and so with the last message at the end. Where all was acknowledged,
    -- nothing comes, and this is no step.
    page_hears_again :
        (s : System) (again : List String)
        → s.listening ≡ true
        → Step s (record s { arriving = again ++ s.retained })
    -- The broker has lost the session of the status server, which does not subscribe again.
    page_is_forgotten :
        (s : System) (kept : List String) → Step s (record s { arriving = kept; listening = false })
    -- A new status server subscribes, which may fail, and then gets the retained message. Of what was on
    -- its way to the old one any part may come first.
    page_restarts :
        (s : System) (kept : List String) (listens : Bool) (store : StatusStore)
        (mqtt : client.State)
        → Step s (restart_page kept listens store mqtt s)

  pub data Reach (s : System) : System → Type 0 where
    here : Reach s s
    next : {t u : System} → Reach s t → Step t u → Reach s u
