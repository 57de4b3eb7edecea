-- ===== src/Examples/System.antt =====
-- The gate, the broker and the status server at a concrete opening.
use pigate.Prelude.{◌≡◌, refl, Bool, true, false, some, [], ◌∷◌, ◌++◌, pos, string_eq}
use pigate.Status.Page.{handle_status, snapshot}
use pigate.Status.Server.{on_gate_status, accepted, handle_command, send_command}
use pigate.Status.State.{set_gate_status}
use pigate.Status.Commands.{normalize_command}
use pigate.Parser.Text.{trim_space, trim_left, trim_right, is_space}
use pigate.Messenger.Client.{command_close, publish}
use pigate.Gate.Controller.{locked_open, gate_open, gate_closed, set_status_notifier}
use pigate.Gate.World.{temporary, locked, enters, step}
use pigate.System.{
  System, begun, new_world, notified, told, serving, take_status, gate_step, restart_page,
  gate_sets_notifier, gate_tells, gate_subscribes, page_restarts, publish_status, hear_status,
  payload_for, Reach, here, next, gate_acts, gate_publishes, page_hears,
}
use pigate.System.Statuses.{shown}
use pigate.System.Showing.{page_shows}
use pigate.System.Commanding.{IsUp, aim, settle, command_shown}
use pigate.Status.Server.Mirror.{calm_store}
use pigate.Status.Server.Reload.{empty_tables}
use pigate.Examples.Status.{broker, server}

abbrev online : broker.State → Bool
online s = true

abbrev Whole : Type 0
Whole = System broker online "north"

abbrev fresh : Whole
fresh = begun broker online "north" (pos 10) 0 server

abbrev with_notifier : Whole
with_notifier = record fresh {
  world = record (fresh.world) { gate = set_status_notifier fresh.world.gate };
  phase = notified;
}

abbrev after_notice : Whole
after_notice = record (take_status broker online "north" gate_closed with_notifier) { phase = told }

abbrev up : Whole
up = record after_notice { phase = serving }

-- The server is started again, and gets the retained status.
abbrev first : Whole
first = restart_page broker online "north" [] true (calm_store empty_tables) [] up

to_first : Reach broker online "north" fresh first
to_first =
    next
      (next (next (next here (gate_sets_notifier fresh refl)) (gate_tells with_notifier refl))
        (gate_subscribes after_notice refl))
      (page_restarts up [] true (calm_store empty_tables) [])

abbrev entered : Whole
entered = gate_step broker online "north" (enters temporary) first

abbrev opened_up : Whole
opened_up = publish_status broker online "north" gate_open entered

abbrev heard_once : Whole
heard_once = hear_status broker online "north" "closed" ("opened" ∷ []) 5 opened_up

abbrev heard : Whole
heard = hear_status broker online "north" "opened" [] 6 heard_once

to_heard : Reach broker online "north" fresh heard
unfolding step new_world set_status_notifier
to_heard =
    next
      (next
        (next (next to_first (gate_acts first (enters temporary) tt))
          (gate_publishes entered gate_open [] refl))
        (page_hears opened_up "closed" ("opened" ∷ []) 5 refl))
      (page_hears heard_once "opened" [] 6 refl)

late_enough : heard.early ≡ false
unfolding step new_world set_status_notifier
late_enough = refl

heard-IsUp : IsUp broker online "north" heard
heard-IsUp = record { serves = refl; not_early = late_enough; listens = refl }

nothing_left : heard.world.gate.notices ≡ []
unfolding step new_world set_status_notifier
nothing_left = refl

page_shows_example :
    (handle_status broker online 7 heard.app).0.gate_status ≡ shown heard.world.gate.state
page_shows_example =
    page_shows broker online "north" (pos 10) 0 7 server heard to_heard refl late_enough refl
      nothing_left refl

is_open : shown heard.world.gate.state ≡ "opened"
unfolding step new_world set_status_notifier
is_open = refl

asks : (handle_command broker (some " Close") 8 heard.app).0 ≡ accepted "close"
unfolding handle_command normalize_command trim_space trim_right trim_left is_space send_command
    string_eq command_close publish
asks = refl

command_shown_example :
    let t = settle broker online "north" 9 (record heard {
      commands = [] ++ payload_for (some " Close");
      app = (handle_command broker (some " Close") 8 heard.app).1;
    }) in
    Reach broker online "north" heard t
    × (t.world.gate.state ≡ aim "close" heard.world.gate.state)
    × ((handle_status broker online 9 t.app).0.gate_status
        ≡ shown (aim "close" heard.world.gate.state))
command_shown_example =
    command_shown broker online "north" (pos 10) 0 8 9 server heard to_heard heard-IsUp refl
      (some " Close") "close" asks

-- A code that opens the gate for good before the gate has its notifier.
abbrev opened_before : Whole
opened_before = gate_step broker online "north" (enters locked) fresh

abbrev noticed : Whole
noticed = record opened_before {
  world = record (opened_before.world) { gate = set_status_notifier opened_before.world.gate };
  phase = notified;
}

abbrev missed : Whole
missed =
    let s = record (take_status broker online "north" gate_closed noticed) { phase = told } in
    hear_status broker online "north" "closed" [] 3
      (restart_page broker online "north" [] true (calm_store empty_tables) [] s)

-- Then the page shows `closed`, and nothing is on its way.
missed_opening :
    (missed.world.gate.state ≡ locked_open)
    × (missed.world.gate.notices ≡ [])
    × (missed.arriving ≡ [])
    × ((handle_status broker online 4 missed.app).0.gate_status ≡ "closed")
unfolding step new_world set_status_notifier handle_status snapshot on_gate_status set_gate_status
missed_opening = (refl, refl, refl, refl)
