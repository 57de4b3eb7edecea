-- ===== src/CredentialServer/Service.antt =====
-- pigate/cmd/credentialserver/main.go, `program`: the goroutines of the service and how it is stopped.
pub mod Stopping
use pigate.Prelude.{ℕ, ◌+◌, ◌-◌, ◌≡◌, Bool, true, false, Option, none, some}

-- `run`: before `Start`; up to step 5; at `<-p.stopChan`; after `wg.Done`.
pub data RunPhase : Type 0 where
  unborn works waits ended : RunPhase

-- The goroutine of the file watcher: not started; before the loop of `fileWatcher.Start`; in it; after
-- `wg.Done`.
pub data WatchPhase : Type 0 where
  absent opens loops gone : WatchPhase

-- `Stop`: not called; at `p.wg.Wait()`; returned; or it has panicked at `close`.
pub data StopPhase : Type 0 where
  uncalled at_wait returned crashed : StopPhase

-- `stop_chan` is nil before `Start`, and then says whether the channel is closed. `wg` is the counter.
pub record Service : Type 0 where
  pub stop_chan : Option Bool
  pub wg : ℕ
  pub run : RunPhase
  pub watch : WatchPhase
  pub stop : StopPhase

abbrev pub unborn_service : Service
unborn_service = record { stop_chan = none; wg = 0; run = unborn; watch = absent; stop = uncalled }

-- `closes` says whether anything closes the channels of the watcher, at which its loop ends.
module _ (closes : Bool) where
  -- What happens next, in any order. The manager of services calls `Start` once, and `Stop` once.
  pub data Step : Service → Service → Type 0 where
    starts :
        (s : Service)
        → s.run ≡ unborn
        → Step s (record s { stop_chan = some false; wg = s.wg + 1; run = works })
    -- Steps 1 to 5 of `run`.
    launches :
        (s : Service)
        → s.run ≡ works
        → Step s (record s { wg = s.wg + 1; run = waits; watch = opens })
    -- The channel is closed, and `run` returns.
    hears :
        (s : Service)
        → s.run ≡ waits
        → s.stop_chan ≡ some true
        → Step s (record s { wg = s.wg - 1; run = ended })
    -- `NewWatcher` or `Add` gives an error.
    cannot_watch :
        (s : Service) → s.watch ≡ opens → Step s (record s { wg = s.wg - 1; watch = gone })
    watches : (s : Service) → s.watch ≡ opens → Step s (record s { watch = loops })
    channels_close :
        (s : Service)
        → closes ≡ true
        → s.watch ≡ loops
        → Step s (record s { wg = s.wg - 1; watch = gone })
    stops :
        (s : Service)
        → s.stop ≡ uncalled
        → s.stop_chan ≡ some false
        → Step s (record s { stop_chan = some true; stop = at_wait })
    -- A channel that is nil cannot be closed.
    stops_early :
        (s : Service)
        → s.stop ≡ uncalled
        → s.stop_chan ≡ none
        → Step s (record s { stop = crashed })
    -- `Wait` returns when the counter is 0.
    stop_returns :
        (s : Service) → s.stop ≡ at_wait → s.wg ≡ 0 → Step s (record s { stop = returned })

  pub data Reach (s : Service) : Service → Type 0 where
    here : Reach s s
    next : {t u : Service} → Reach s t → Step t u → Reach s u
