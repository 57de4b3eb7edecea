-- ===== src/System/Showing.antt =====
-- What the page shows of the gate.
use pigate.Prelude.{
  ℕ, ◌≡◌, refl, ap, ◌∙◌, sym, subst, inl, inr, Bool, true, false, String, Option, List, [], ◌∷◌,
  ◌++◌, ℤ,
}
use pigate.Messenger.Client.{Client}
use pigate.Gate.World.{World, receives}
use pigate.Status.Server.{App, on_gate_status, on_credential_status, handle_command}
use pigate.Status.Server.Publishing.{handle_command_lem}
use pigate.Status.State.{set_gate_status, set_credential_status, set_command}
use pigate.Status.Page.{handle_status, snapshot}
use pigate.System.{
  System, begun, Phase, silent, notified, told, serving, has_told, deliver, Step, gate_starts,
  gate_sets_notifier, gate_tells, gate_subscribes, gate_is_forgotten, gate_acts, gate_publishes,
  gate_receives, page_hears, page_hears_credentials, page_commands, page_fails, commands_change,
  page_hears_again, page_is_forgotten, page_restarts, Reach, here, next,
}
use pigate.System.Statuses.{last_of, last_of-append, shown}
use pigate.System.Telling.{
  Acts-Announces, GateSide, gate_step-GateSide, publish-GateSide, fresh-GateSide,
  set_status_notifier-GateSide, tell-GateSide,
}

-- The page's side.
abbrev PageTold : String → List String → List String → Type 0
PageTold status arriving retained =
    let heard = last_of status arriving in last_of heard retained ≡ heard

last_of-retained :
    (status : String) (before retained : List String)
    → PageTold status (before ++ retained) retained
last_of-retained status before retained =
    rw (last_of-append status before retained) (again (last_of status before) retained)
  where
    again : (x : String) (l : List String) → last_of (last_of x l) l ≡ last_of x l
    again x [] = refl
    again x (y ∷ ys) = refl

take-PageTold :
    (listening : Bool) (status message : String) (arriving : List String)
    → listening ≡ true
    → PageTold status (deliver listening message arriving) (message ∷ [])
take-PageTold true status message arriving h = last_of-retained status arriving (message ∷ [])
take-PageTold false status message arriving h = absurd (cc)

module _ (client : Client) (is_connected : client.State → Bool) (location : String) where
  -- Once the messages on their way have come, a page that listens shows the retained one.
  record Inv (s : System client is_connected location) : Type 0 where
    gate_side : GateSide s.phase s.early s.retained s.world
    page_told :
        s.listening ≡ true
        → let heard = last_of s.app.state.gate_status s.arriving in last_of heard s.retained ≡ heard

  handle_command-gate_status :
      (body : Option String) (now : ℕ) (a : App client)
      → (handle_command client body now a).1.state.gate_status ≡ a.state.gate_status
  unfolding set_command
  handle_command-gate_status body now a = elim (handle_command_lem client now a body) [
    | inl (no_command, e, bad, same) ↦ ap (λ b. b.state.gate_status) same
    | inr (raw, text, command, payload, is, sent, inl (e, failed, bad, same, store_same)) ↦
        ap (λ b. b.gate_status) same
    | inr (raw, text, command, payload, is, sent, inr (fine, good, set)) ↦
        ap (λ b. b.gate_status) set
  ]

  Step-Inv :
      {s t : System client is_connected location}
      → Step client is_connected location s t
      → Inv s
      → Inv t
  unfolding on_gate_status on_credential_status set_gate_status set_credential_status
  Step-Inv (gate_starts s duration now) i = record {
    gate_side = fresh-GateSide duration now s.retained;
    page_told = i.page_told;
  }
  Step-Inv (gate_sets_notifier s at) i = record {
    gate_side =
        set_status_notifier-GateSide s.early s.retained s.world
          (subst (λ p. GateSide p s.early s.retained s.world) at i.gate_side);
    page_told = i.page_told;
  }
  Step-Inv (gate_tells s at) i = record {
    gate_side =
        tell-GateSide s.early s.retained s.world
          (subst (λ p. GateSide p s.early s.retained s.world) at i.gate_side);
    page_told = take-PageTold s.listening s.app.state.gate_status _ s.arriving;
  }
  Step-Inv (gate_subscribes s at) i = record {
    gate_side =
        let g = subst (λ p. GateSide p s.early s.retained s.world) at i.gate_side in
        record { notifier = g.notifier; known = g.known };
    page_told = i.page_told;
  }
  Step-Inv (gate_is_forgotten s at) i = record {
    gate_side =
        let g = subst (λ p. GateSide p s.early s.retained s.world) at i.gate_side in
        record { notifier = g.notifier; known = g.known };
    page_told = i.page_told;
  }
  Step-Inv (gate_acts s e a) i = record {
    gate_side =
        gate_step-GateSide s.phase s.early s.retained e s.world (Acts-Announces e a) i.gate_side;
    page_told = i.page_told;
  }
  Step-Inv (gate_publishes s status rest q) i = record {
    gate_side = publish-GateSide s.phase s.early status rest s.retained s.world q i.gate_side;
    page_told = take-PageTold s.listening s.app.state.gate_status _ s.arriving;
  }
  Step-Inv (gate_receives s command rest at q) i = record {
    gate_side =
        gate_step-GateSide s.phase s.early s.retained (receives command) s.world tt i.gate_side;
    page_told = i.page_told;
  }
  Step-Inv (page_hears s status rest now q) i = record {
    gate_side = i.gate_side;
    page_told = rw q at i.page_told;
  }
  Step-Inv (page_hears_credentials s status now) i = record {
    gate_side = i.gate_side;
    page_told = i.page_told;
  }
  Step-Inv (page_commands s body now command ok) i = record {
    gate_side = i.gate_side;
    page_told =
        subst (λ g. s.listening ≡ true → PageTold g s.arriving s.retained)
          (sym (handle_command-gate_status body now s.app)) i.page_told;
  }
  Step-Inv (page_fails s body now came) i = record {
    gate_side = i.gate_side;
    page_told =
        subst (λ g. s.listening ≡ true → PageTold g s.arriving s.retained)
          (sym (handle_command-gate_status body now s.app)) i.page_told;
  }
  Step-Inv (commands_change s commands) i = record {
    gate_side = i.gate_side;
    page_told = i.page_told;
  }
  Step-Inv (page_hears_again s again on) i = record {
    gate_side = i.gate_side;
    page_told = λ h. last_of-retained s.app.state.gate_status again s.retained;
  }
  Step-Inv (page_is_forgotten s kept) i = record {
    gate_side = i.gate_side;
    page_told = λ h. absurd (cc);
  }
  Step-Inv (page_restarts s kept true store mqtt) i = record {
    gate_side = i.gate_side;
    page_told = λ h. last_of-retained _ kept s.retained;
  }
  Step-Inv (page_restarts s kept false store mqtt) i = record {
    gate_side = i.gate_side;
    page_told = λ h. absurd (cc);
  }

  Reach-Inv :
      {s t : System client is_connected location}
      → Reach client is_connected location s t
      → Inv s
      → Inv t
  Reach-Inv here i = i
  Reach-Inv (next r st) i = Step-Inv st (Reach-Inv r i)

  shown_by_page :
      (phase : Phase) (early : Bool) (retained : List String) (w : World) (status : String)
      → has_told phase ≡ true
      → early ≡ false
      → w.gate.notices ≡ []
      → PageTold status [] retained
      → GateSide phase early retained w
      → status ≡ shown w.gate.state
  shown_by_page silent early retained w status at late published heard g = absurd (cc)
  shown_by_page notified early retained w status at late published heard g = absurd (cc)
  shown_by_page told early retained w status at late published heard g =
      sym heard ∙ (rw published at (g.known late).told_last status)
  shown_by_page serving early retained w status at late published heard g =
      sym heard ∙ (rw published at (g.known late).told_last status)

  pub page_shows :
      (duration : ℤ) (start now : ℕ) (app : App client) (s : System client is_connected location)
      → Reach client is_connected location (begun client is_connected location duration start app) s
      → has_told s.phase ≡ true
      → s.early ≡ false
      → s.listening ≡ true
      → s.world.gate.notices ≡ []
      → s.arriving ≡ []
      → (handle_status client is_connected now s.app).0.gate_status ≡ shown s.world.gate.state
  unfolding handle_status snapshot
  page_shows duration start now app s r at late on published came =
      let i =
        Reach-Inv r
          (record { gate_side = fresh-GateSide duration start []; page_told = λ h. absurd (cc) }) in
      shown_by_page s.phase s.early s.retained s.world s.app.state.gate_status at late published
        (rw came at i.page_told on) i.gate_side
