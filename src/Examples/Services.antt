-- ===== src/Examples/Services.antt =====
-- The service of the credential server, and a call of `Stop`.
use pigate.Prelude.{refl, ◌≢◌, ◌↔◌, true, false, some}
use pigate.CredentialServer.Service.{
  Service, loops, waits, at_wait, unborn_service, starts, launches, watches, stops, Reach, here,
  next,
}
use pigate.CredentialServer.Service.Stopping.{CanReturn, stop-loops}

-- It watches the directory, and `Stop` is called.
abbrev stopping : Service
stopping = record { stop_chan = some true; wg = 2; run = waits; watch = loops; stop = at_wait }

to_stopping : Reach false unborn_service stopping
to_stopping =
    next (next (next (next here (starts unborn_service refl)) (launches _ refl)) (watches _ refl))
      (stops _ refl refl)

stop-loops_example : CanReturn stopping ↔ (stopping.watch ≢ loops)
stop-loops_example = stop-loops stopping to_stopping refl
