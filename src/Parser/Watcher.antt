-- ===== src/Parser/Watcher.antt =====
-- pigate/pkg/credentialparser/filewatcher.go: which events of the file system start the callback.
use pigate.Prelude.{
  ℕ, Bool, true, false, ◌&&◌, ◌||◌, ◌≡◌, arith, List, [], ◌∷◌, Error, Result, ok, err,
  if◌then◌else◌,
}
use pigate.Parser.Path.{FilePath, is_text_file}

-- The bits of `fsnotify.Op`.
pub record Op : Type 0 where
  pub create : Bool
  pub write : Bool
  pub remove : Bool
  pub rename : Bool
  pub chmod : Bool

-- What the `select` receives: from the channel of events, and from that of errors.
pub data Received : Type 0 where
  event : FilePath → Op → Received
  watcher_error : Error → Received
  events_closed errors_closed : Received

-- The callbacks that were started, each in a goroutine of its own, and whether the loop has returned.
pub record Watched : Type 0 where
  pub started : List FilePath
  pub returned : Bool

-- `event.Op & (Create|Write|Rename) != 0`.
abbrev pub is_change : Op → Bool
is_change op = op.create || op.write || op.rename

module _ (is_separator : ℕ → Bool) where
  abbrev started_by : FilePath → Op → Watched → Watched
  started_by name op rest =
      if is_text_file is_separator name && is_change op
      then record rest { started = name ∷ rest.started }
      else rest

  -- The loop, over what it receives. At the end of the list it still waits.
  unfoldable pub watch : List Received → Watched
  watch [] = record { started = []; returned = false }
  watch (event name op ∷ rest) = started_by name op (watch rest)
  watch (watcher_error e ∷ rest) = watch rest
  watch (events_closed ∷ rest) = record { started = []; returned = true }
  watch (errors_closed ∷ rest) = record { started = []; returned = true }

  abbrev watch_after : Result (Unit {0}) → List Received → Result Watched
  watch_after (err e) received = err e
  watch_after (ok unit) received = ok (watch received)

  -- `Start`, with the results of `NewWatcher` and `Add`.
  unfoldable pub start : Result (Unit {0}) → Result (Unit {0}) → List Received → Result Watched
  start (err e) added received = err e
  start (ok unit) added received = watch_after added received

  pub watch_first :
      (name : FilePath) (op : Op) (rest : List Received)
      → is_text_file is_separator name ≡ true
      → is_change op ≡ true
      → (watch (event name op ∷ rest)).started ≡ name ∷ (watch rest).started
  unfolding watch
  watch_first name op rest is_text change = ground arith
