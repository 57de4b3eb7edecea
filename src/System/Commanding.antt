-- ===== src/System/Commanding.antt =====
-- From a command of the page to what the page shows.
use pigate.Prelude.{
  ℕ, ◌≡◌, refl, ap, ◌∙◌, inl, inr, Bool, true, false, String, Option, none, some, List, [], ◌∷◌,
  ◌++◌, ℤ, arith, pair_cases, Result-cases, string_eq, ◌==◌, if◌then◌else◌,
}
use pigate.Messenger.Client.{Client}
use pigate.Gate.Controller.{GateState, closed, opened, locked_open, Status}
use pigate.Gate.World.{World, receives, step}
use pigate.Status.Commands.{normalize_command}
use pigate.Status.Server.{App, accepted, handle_command, send_command}
use pigate.Status.Server.Publishing.{IsCommand, normalize_command-IsCommand}
use pigate.Status.Page.{handle_status}
use pigate.System.{
  payload_for, serving, has_told, System, begun, publish_status, receive_command, hear_status,
  gate_publishes, gate_receives, page_hears, page_commands, Reach, here, next,
}
use pigate.System.Statuses.{shown}
use pigate.System.Telling.{left_after}
use pigate.System.Showing.{page_shows}

-- The state that a command of the page leads to from another.
abbrev pub aim : String → GateState → GateState
aim command locked_open = if command == "close" then closed else locked_open
aim command state =
    if command == "close" then closed else if command == "lock_open" then locked_open else opened

receives-aim :
    (command payload : String) (w : World)
    → IsCommand command payload
    → (step (receives payload) w).gate.state ≡ aim command w.gate.state
unfolding step string_eq
receives-aim command payload w (inl (c, p)) = rw (c, p) (ground arith)
receives-aim command payload w (inr (inl (c, p))) = rw (c, p) (ground arith)
receives-aim command payload w (inr (inr (c, p))) = rw (c, p) (ground arith)

accepted-payload_for :
    (client : Client) (body : Option String) (now : ℕ) (a : App client) (command : String)
    → (handle_command client body now a).0 ≡ accepted command
    → (payload : String) × IsCommand command payload × (payload_for body ≡ payload ∷ [])
unfolding handle_command
accepted-payload_for client none now a command q = absurd (cc)
accepted-payload_for client (some raw) now a command q = elim (pair_cases (normalize_command raw)) [
  | inl (e, bad) ↦ absurd (ground arith)
  | inr (word, payload, good) ↦
      elim (Result-cases (send_command client a.state.location_id word a.mqtt).0) [
        | inr (e, failed) ↦ absurd (let bad = rw (good, failed) at q in cc)
        | inl (unit, fine) ↦
            let same : word ≡ command = let answer = rw (good, fine) at q in cc in
            (payload, rw same at (normalize_command-IsCommand raw word payload good), rw good refl)
      ]
]

module _ (client : Client) (is_connected : client.State → Bool) (location : String) where
  abbrev Whole : Type 0
  Whole = System client is_connected location

  abbrev Leads : Whole → Whole → Type 0
  Leads = Reach client is_connected location

  -- The gate hears commands and has told its state, and the server hears statuses.
  pub record IsUp (s : Whole) : Type 0 where
    pub serves : s.phase ≡ serving
    pub not_early : s.early ≡ false
    pub listens : s.listening ≡ true

  receive-IsUp :
      (command : String) (rest : List String) (s : Whole)
      → IsUp s
      → IsUp (receive_command client is_connected location command rest s)
  receive-IsUp command rest s u = record {
    serves = u.serves;
    not_early = rw (u.serves, u.not_early) refl;
    listens = u.listens;
  }

  go_further : {s t u : Whole} → Leads s t → Leads t u → Leads s u
  go_further r here = r
  go_further r (next path st) = next (go_further r path) st

  -- The gate receives the commands on their way, one after the other.
  unfoldable pub receive_all : List String → Whole → Whole
  receive_all [] s = s
  receive_all (command ∷ rest) s =
      receive_all rest (receive_command client is_connected location command rest s)

  -- The goroutines of the gate publish, one after the other.
  unfoldable pub publish_all : List Status → Whole → Whole
  publish_all [] s = s
  publish_all (status ∷ rest) s =
      publish_all rest (publish_status client is_connected location status s)

  -- The server hears the messages on their way, one after the other.
  unfoldable pub hear_all : ℕ → List String → Whole → Whole
  hear_all now [] s = s
  hear_all now (status ∷ rest) s =
      hear_all now rest (hear_status client is_connected location status rest now s)

  -- Everything on its way comes, and nothing else happens.
  unfoldable pub settle : ℕ → Whole → Whole
  settle now s =
      let s1 = receive_all s.commands s in
      let s2 = publish_all s1.world.gate.notices s1 in hear_all now s2.arriving s2

  abbrev received : List String → World → World
  received [] w = w
  received (command ∷ rest) w = received rest (step (receives command) w)

  receive_all_lem :
      (commands : List String) (s : Whole)
      → s.commands ≡ commands
      → IsUp s
      → Leads s (receive_all commands s)
        × IsUp (receive_all commands s)
        × ((receive_all commands s).commands ≡ [])
        × ((receive_all commands s).world ≡ received commands s.world)
  unfolding receive_all
  receive_all_lem [] s q u = (here, u, q, refl)
  receive_all_lem (command ∷ rest) s q u =
      let (path, up, none_left, same) =
        receive_all_lem rest (receive_command client is_connected location command rest s) refl
          (receive-IsUp command rest s u) in
      (go_further (next here (gate_receives s command rest u.serves q)) path, up, none_left, same)

  publish_all_lem :
      (statuses : List Status) (s : Whole)
      → s.world.gate.notices ≡ statuses
      → IsUp s
      → Leads s (publish_all statuses s)
        × IsUp (publish_all statuses s)
        × ((publish_all statuses s).world.gate.notices ≡ [])
        × ((publish_all statuses s).world.gate.state ≡ s.world.gate.state)
        × ((publish_all statuses s).commands ≡ s.commands)
  unfolding publish_all
  publish_all_lem [] s q u = (here, u, q, refl, refl)
  publish_all_lem (status ∷ rest) s q u =
      let (left, same, on) = left_after status rest s.world q in
      let (path, up, none_left, state_same, kept) =
        publish_all_lem rest (publish_status client is_connected location status s) left
          (record { serves = u.serves; not_early = u.not_early; listens = u.listens }) in
      (
        go_further (next here (gate_publishes s status rest q)) path,
        up,
        none_left,
        state_same ∙ same,
        kept,
      )

  hear_all_lem :
      (now : ℕ) (messages : List String) (s : Whole)
      → s.arriving ≡ messages
      → IsUp s
      → Leads s (hear_all now messages s)
        × IsUp (hear_all now messages s)
        × ((hear_all now messages s).arriving ≡ [])
        × ((hear_all now messages s).world ≡ s.world)
        × ((hear_all now messages s).commands ≡ s.commands)
  unfolding hear_all
  hear_all_lem now [] s q u = (here, u, q, refl, refl)
  hear_all_lem now (status ∷ rest) s q u =
      let (path, up, none_left, world_same, kept) =
        hear_all_lem now rest (hear_status client is_connected location status rest now s) refl
          (record { serves = u.serves; not_early = u.not_early; listens = u.listens }) in
      (
        go_further (next here (page_hears s status rest now q)) path,
        up,
        none_left,
        world_same,
        kept,
      )

  settle_lem :
      (now : ℕ) (s : Whole)
      → IsUp s
      → let t = settle now s in
        Leads s t
        × IsUp t
        × (t.commands ≡ [])
        × (t.world.gate.notices ≡ [])
        × (t.arriving ≡ [])
        × (t.world.gate.state ≡ (received s.commands s.world).gate.state)
  unfolding settle
  settle_lem now s u =
      let s1 = receive_all s.commands s in
      let s2 = publish_all s1.world.gate.notices s1 in
      let (path1, up1, commands1, world1) = receive_all_lem s.commands s refl u in
      let (path2, up2, notices2, state2, commands2) =
        publish_all_lem s1.world.gate.notices s1 refl up1 in
      let (path3, up3, arriving3, world3, commands3) = hear_all_lem now s2.arriving s2 refl up2 in
      (
        go_further path1 (go_further path2 path3),
        up3,
        commands3 ∙ commands2 ∙ commands1,
        ap (λ w. w.gate.notices) world3 ∙ notices2,
        arriving3,
        ap (λ w. w.gate.state) world3 ∙ state2 ∙ ap (λ w. w.gate.state) world1,
      )

  pub command_shown :
      (duration : ℤ) (start now later : ℕ) (app : App client) (s : Whole)
      → Leads (begun client is_connected location duration start app) s
      → IsUp s
      → s.commands ≡ []
      → (body : Option String) (command : String)
      → (handle_command client body now s.app).0 ≡ accepted command
      → let t = settle later (record s {
        commands = s.commands ++ payload_for body;
        app = (handle_command client body now s.app).1;
      }) in
        Leads s t
        × (t.world.gate.state ≡ aim command s.world.gate.state)
        × ((handle_status client is_connected later t.app).0.gate_status
            ≡ shown (aim command s.world.gate.state))
  command_shown duration start now later app s r up idle body command good =
      let (payload, is, sent) = accepted-payload_for client body now s.app command good in
      let asked = page_commands s body now command good in
      let (path, still, no_commands, no_notices, none_arriving, moved) =
        settle_lem later _
          (record { serves = up.serves; not_early = up.not_early; listens = up.listens }) in
      let onward = go_further (next here asked) path in
      let arrives : s.commands ++ payload_for body ≡ payload ∷ [] = rw (idle, sent) refl in
      let reached =
        moved
        ∙ ap (λ l. (received l s.world).gate.state) arrives
        ∙ receives-aim command payload s.world is in
      (
        onward,
        reached,
        page_shows client is_connected location duration start later app _ (go_further r onward)
              (ap has_told still.serves) still.not_early still.listens no_notices none_arriving
            ∙ ap shown reached,
      )
