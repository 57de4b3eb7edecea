-- ===== src/Database/Updater.antt =====
-- pigate/pkg/database/updater.go: copying the remote tables into an access manager.
pub mod Merge
pub mod Times
pub mod Validity
use pigate.Prelude.{String, Option, List, [], ◌∷◌, Result, ok, err, M, pure, ◌>>=◌, ◌>>◌, and_then}
use pigate.Database.Models.{Credential, AccessTime}
use pigate.Database.Postgres.{Remote, connect, get_credentials, get_access_times}
use pigate.Database.Managers.{AccessManager}

module _ (access : AccessManager) where
  -- The two databases that an update touches.
  pub record Sides : Type 0 where
    pub near : access.State
    pub remote : Remote

  -- A call to the remote database.
  abbrev pub on_remote : {A : Type 0} → M Remote A → M Sides A
  on_remote m s = let (r, remote) = m s.remote in (r, record s { remote = remote })

  -- A call to the access manager whose error is only logged.
  abbrev pub logged : M access.State (Unit {0}) → M Sides (Unit {0})
  logged m s = (ok tt, record s { near = (m s.near).1 })

  unfoldable pub sync_credentials : M Sides (Unit {0})
  sync_credentials = do
    on_remote connect
    credentials ← on_remote get_credentials
    logged (access.put_credentials credentials)

  -- The loop over the access times: an error is logged, and the loop goes on.
  unfoldable pub put_each : List AccessTime → access.State → access.State
  put_each [] near = near
  put_each (at ∷ ats) near = put_each ats (access.put_access_time at near).1

  unfoldable pub sync_access_times : M Sides (Unit {0})
  sync_access_times = do
    on_remote connect
    access_times ← on_remote get_access_times
    λ s. (ok tt, record s { near = put_each access_times s.near })

  -- The callback of `HandleUpdateNotification`: both errors are logged.
  unfoldable pub handle_update_notification : String → String → Sides → Sides
  handle_update_notification topic message s = (sync_access_times (sync_credentials s).1).1
