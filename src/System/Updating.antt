-- ===== src/System/Updating.antt =====
-- The credential server, the remote database and the gate with its local one: on_change of
-- pigate/cmd/credentialserver/main.go and HandleUpdateNotification of pigate/pkg/database/updater.go.
use pigate.Prelude.{
  ◌≡◌, refl, ap, subst, ◌∙◌, inl, inr, String, some, List, [], ◌∷◌, ◌++◌, Result, ok, err, returns,
  Bool, true, false, string_eq,
}
use mathlib.Core.Option.{or_else}
use pigate.Database.Models.{Time, Credential, AccessTime}
use pigate.Database.Table.{find}
use pigate.Database.Credentials.{Tables, code_of}
use pigate.Database.Credentials.Quiet.{calm}
use pigate.Database.Sqlite.{AccessRow}
use pigate.Database.Managers.{sqlite_access_manager}
use pigate.Database.Updater.{handle_update_notification}
use pigate.Database.Updater.Merge.{find-stored}
use pigate.Database.Updater.Times.{handle_update_notification_quiet}
use pigate.Gate.Access.{validate_credential}
use pigate.Gate.Access.Local.{local_manager, verdict, validate_credential_quiet}
use pigate.Messenger.Messages.{topic_credentials_status, update_available}
use pigate.Messenger.Client.{Client, Token, in_time, late, publish, notify_new_credentials}
use pigate.Parser.Sync.EndToEnd.{IsSound}
use pigate.Parser.Sync.Any.{handle_file_cases}
use pigate.CredentialServer.{on_change}

-- The messages that are on their way, with their topics, and whether one has not been sent.
abbrev pub Post : Type 0
Post = List (String × String) × Bool

-- Only a message whose token is done in time and has no error is on its way.
abbrev pub posted : Token → String × String → Post → Post
posted (in_time (ok done)) message p = (p.0 ++ message ∷ [], p.1)
posted (in_time (err e)) message p = (p.0, true)
posted late message p = (p.0, true)

-- A client that also keeps the messages that are on their way.
abbrev pub posting : Client → Client
posting client = record {
  State = client.State × Post;
  send = λ topic retained payload s.
      let (token, s') = client.send topic retained payload s.0 in
      (token, (s', posted token (topic, payload) s.1));
}

posted-ne-nil :
    (token : Token) (message : String × String) (p : Post)
    → (posted token message p).0 ≡ []
    → (posted token message p).1 ≡ false
    → ⊥
posted-ne-nil (in_time (ok done)) message ([], untold) none_left sent = absurd (cc)
posted-ne-nil (in_time (ok done)) message (m ∷ ms, untold) none_left sent = absurd (cc)
posted-ne-nil (in_time (err e)) message p none_left sent = absurd (cc)
posted-ne-nil late message p none_left sent = absurd (cc)

-- The local tables after an update of the gate: at a notification, at its start, and once a day.
abbrev pub updated : String → String → Tables AccessRow → Tables AccessTime → Tables AccessRow
updated topic message near remote =
    (handle_update_notification sqlite_access_manager topic message
      (record { near = calm near; remote = calm remote })).near.tables

module _ (client : Client) (location : String) where
  pub record Feeding : Type 0 where
    pub near : Tables AccessRow
    pub remote : Tables AccessTime
    pub mqtt : client.State
    pub notices : List (String × String)
    pub untold : Bool

  -- What happens next, in any order: a file comes, and its callback runs; a notification comes to the
  -- gate; the gate updates by itself. No call to a database fails, only the credential server changes
  -- the remote one, and every notification that was sent comes to the gate. The error of one that was
  -- not sent is dropped, as `main` does: `untold` holds from then on until the gate updates.
  pub data Step : Feeding → Feeding → Type 0 where
    file_comes :
        (s : Feeding) (read : Result (List (List String))) (remote : Tables AccessTime)
        (mqtt : (posting client).State)
        → on_change
            (posting client)
            location
            read
            (record { remote = calm s.remote; mqtt = (s.mqtt, (s.notices, s.untold)) })
          ≡ returns (record { remote = calm remote; mqtt = mqtt })
        → Step s (record {
          near = s.near;
          remote = remote;
          mqtt = mqtt.0;
          notices = mqtt.1.0;
          untold = mqtt.1.1;
        })
    gate_hears :
        (s : Feeding) (topic message : String) (rest : List (String × String))
        → s.notices ≡ (topic, message) ∷ rest
        → Step s (record s {
          near = updated topic message s.near s.remote;
          notices = rest;
          untold = false;
        })
    gate_updates :
        (s : Feeding) (topic message : String)
        → Step s (record s { near = updated topic message s.near s.remote; untold = false })

  pub data Reach (s : Feeding) : Feeding → Type 0 where
    here : Reach s s
    next : {t u : Feeding} → Reach s t → Step t u → Reach s u

  -- Every remote credential is in the local database.
  pub record InStep (near : Tables AccessRow) (remote : Tables AccessTime) : Type 0 where
    pub same :
        (code : String) (c : Credential)
        → find code_of code remote.credentials ≡ some c
        → find code_of code near.credentials ≡ some c

  record Inv (s : Feeding) : Type 0 where
    sound : IsSound s.remote.credentials
    in_step : s.notices ≡ [] → s.untold ≡ false → InStep s.near s.remote

  updated-InStep :
      (topic message : String) (near : Tables AccessRow) (remote : Tables AccessTime)
      → IsSound remote.credentials
      → InStep (updated topic message near remote) remote
  updated-InStep topic message near remote s = record {
    same = λ code c there.
        ap (λ p. find code_of code p.near.tables.credentials)
          (handle_update_notification_quiet near remote topic message s.modes)
        ∙ find-stored near remote code s.codes
        ∙ ap (λ o. or_else o (find code_of code near.credentials)) there
        ∙ unfold or_else in refl;
  }

  Step-Inv : {s t : Feeding} → Step s t → Inv s → Inv t
  unfolding on_change notify_new_credentials publish
  Step-Inv (gate_hears s topic message rest q) i = record {
    sound = i.sound;
    in_step = λ none_left told. updated-InStep topic message s.near s.remote i.sound;
  }
  Step-Inv (gate_updates s topic message) i = record {
    sound = i.sound;
    in_step = λ none_left told. updated-InStep topic message s.near s.remote i.sound;
  }
  Step-Inv (file_comes s read remote mqtt q) i = elim (handle_file_cases read s.remote i.sound) [
    | inl bad ↦ absurd (let p = rw bad at q in cc)
    | inr (inl (e, rejected)) ↦
        let p = rw rejected at q in
        let same : s.remote ≡ remote = cc in
        let kept : s.notices ≡ mqtt.1.0 = cc in
        let still : s.untold ≡ mqtt.1.1 = cc in
        record {
          sound = subst (λ t. IsSound t.credentials) same i.sound;
          in_step = λ none_left told.
              subst (InStep s.near) same (i.in_step (kept ∙ none_left) (still ∙ told));
        }
    | inr (inr (after, handled, fine)) ↦
        let p = rw handled at q in
        let same : after ≡ remote = cc in
        let message : String × String = (topic_credentials_status location, update_available) in
        let token = (client.send message.0 true message.1 s.mqtt).0 in
        let noted : posted token message (s.notices, s.untold) ≡ mqtt.1 = cc in
        record {
          sound = subst (λ t. IsSound t.credentials) same fine;
          in_step = λ none_left told. absurd (
              posted-ne-nil token message (s.notices, s.untold) (ap (λ p. p.0) noted ∙ none_left)
                (ap (λ p. p.1) noted ∙ told));
        }
  ]

  Reach-Inv : {s t : Feeding} → Reach s t → Inv s → Inv t
  Reach-Inv here i = i
  Reach-Inv (next r st) i = Step-Inv st (Reach-Inv r i)

  -- A gate that has just updated from the remote database.
  abbrev pub started :
      String → String → Tables AccessRow → Tables AccessTime → client.State → Feeding
  started topic message near remote mqtt = record {
    near = updated topic message near remote;
    remote = remote;
    mqtt = mqtt;
    notices = [];
    untold = false;
  }

  started-Inv :
      (topic message : String) (near : Tables AccessRow) (remote : Tables AccessTime)
      (mqtt : client.State)
      → IsSound remote.credentials
      → Inv (started topic message near remote mqtt)
  started-Inv topic message near remote mqtt s = record {
    sound = s;
    in_step = λ none_left told. updated-InStep topic message near remote s;
  }

  -- From a gate that has updated from a sound remote database, whatever files come, rejected ones
  -- included, and in whatever order its notifications and daily updates come: where no notification is
  -- on its way, and none has failed to be published since the gate last updated, the gate judges every
  -- code of the remote database by its remote credential. It is supposed that no call to a database
  -- fails, that only the credential server changes the remote one, and that every notification whose
  -- publication did not fail comes to the gate.
  pub judged_by_remote :
      (topic message : String) (near : Tables AccessRow) (remote : Tables AccessTime)
      (mqtt : client.State) (s : Feeding)
      → IsSound remote.credentials
      → Reach (started topic message near remote mqtt) s
      → s.notices ≡ []
      → s.untold ≡ false
      → (code : String) (now : Time) (c : Credential)
      → find code_of code s.remote.credentials ≡ some c
      → (validate_credential local_manager code now (calm s.near)).0
        ≡ returns (verdict now (some c) s.near.access_times)
  judged_by_remote topic message near remote mqtt s sound r none_left told code now c there =
      let i = Reach-Inv r (started-Inv topic message near remote mqtt sound) in
      validate_credential_quiet code now s.near
      ∙ ap (λ o. returns (verdict now o s.near.access_times))
          ((i.in_step none_left told).same code c there)
