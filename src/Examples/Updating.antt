-- ===== src/Examples/Updating.antt =====
-- A file that comes, and the gate that hears of it.
use pigate.Prelude.{◌≡◌, refl, ◌∙◌, [], ◌∷◌, some, false, ok, returns, string_eq}
use mathlib.Core.Option.{or_else}
use pigate.Database.Models.{Credential}
use pigate.Database.Table.{find}
use pigate.Database.Credentials.{code_of}
use pigate.Database.Credentials.Quiet.{calm}
use pigate.Messenger.Client.{notify_new_credentials, publish}
use pigate.Gate.Access.{validate_credential}
use pigate.Gate.Access.Local.{local_manager, verdict}
use pigate.Parser.File.{entry}
use pigate.Parser.Text.{trim_space, trim_left, trim_right, is_space}
use pigate.Parser.File.Laws.{from_row, first_row}
use pigate.Parser.Sync.Effect.{manual}
use pigate.Parser.Sync.EndToEnd.{Handled, handle_file_lem}
use pigate.CredentialServer.{on_change}
use pigate.System.Updating.{
  Feeding, posting, updated, started, file_comes, gate_hears, Reach, here, next, judged_by_remote,
}
use pigate.Examples.Data.{noon, near, remote}
use pigate.Examples.Parser.{header, first, more, header_found, remote-IsSound}
use pigate.Examples.Status.{broker}

handled : Handled (ok (header ∷ first ∷ more)) remote (λ k. from_row 2 0 1 k (first ∷ more))
handled =
    handle_file_lem header first more 2 0 1 remote header_found (refl, (refl, (refl, tt)))
      remote-IsSound

abbrev begun : Feeding broker "north"
begun = started broker "north" "north/credentials/status" "update_available" near remote []

abbrev posted : (posting broker).State
posted = (notify_new_credentials (posting broker) "north" ([], ([], false))).1

abbrev told : Feeding broker "north"
told = record {
  near = begun.near;
  remote = handled.after;
  mqtt = posted.0;
  notices = posted.1.0;
  untold = posted.1.1;
}

abbrev heard : Feeding broker "north"
heard = record told {
  near = updated "north/credentials/status" "update_available" told.near told.remote;
  notices = [];
  untold = false;
}

comes :
    on_change
      (posting broker)
      "north"
      (ok (header ∷ first ∷ more))
      (record { remote = calm remote; mqtt = ([], ([], false)) })
    ≡ returns (record { remote = calm handled.after; mqtt = posted })
unfolding on_change
comes = rw handled.result refl

one_posted : posted.1.0 ≡ ("north/credentials/status", "update_available") ∷ []
unfolding notify_new_credentials publish
one_posted = refl

to_heard : Reach broker "north" begun heard
to_heard =
    next (next here (file_comes begun (ok (header ∷ first ∷ more)) handled.after posted comes))
      (gate_hears told "north/credentials/status" "update_available" [] one_posted)

abbrev resident : Credential
resident = entry "4711" "Guest" "00"

in_file :
    or_else (from_row 2 0 1 "4711" (first ∷ more)) (manual (find code_of "4711" remote.credentials))
    ≡ some resident
unfolding or_else string_eq find first_row trim_space trim_right trim_left is_space
in_file = refl

there : find code_of "4711" heard.remote.credentials ≡ some resident
there = handled.finds "4711" ∙ in_file

judged_by_remote_example :
    (validate_credential local_manager "4711" noon (calm heard.near)).0
    ≡ returns (verdict noon (some resident) heard.near.access_times)
judged_by_remote_example =
    judged_by_remote broker "north" "north/credentials/status" "update_available" near remote []
      heard remote-IsSound to_heard refl refl "4711" noon resident there
