-- ===== src/CredentialServer/Service/Stopping.antt =====
-- When the service stops.
use pigate.Prelude.{
  ℕ, ◌+◌, ◌≡◌, refl, ◌≢◌, ◌⊎◌, ◌↔◌, inl, inr, Bool, true, false, none, some, arith,
}
use pigate.CredentialServer.Service.{
  RunPhase, unborn, works, waits, ended, WatchPhase, absent, opens, loops, gone, at_wait, returned,
  Service, unborn_service, Step, starts, launches, hears, cannot_watch, watches, channels_close,
  stops, stops_early, stop_returns, Reach, here, next,
}

-- How many goroutines of the group run.
abbrev pub runs : RunPhase → ℕ
runs works = 1
runs waits = 1
runs other = 0

abbrev pub watching : WatchPhase → ℕ
watching opens = 1
watching loops = 1
watching other = 0

pub record Inv (s : Service) : Type 0 where
  pub counts : s.wg ≡ runs s.run + watching s.watch
  pub channel : s.run ≡ unborn → s.stop_chan ≡ none
  pub unwatched : (s.run ≡ unborn) ⊎ (s.run ≡ works) → s.watch ≡ absent
  pub launched : s.watch ≡ absent → (s.run ≡ unborn) ⊎ (s.run ≡ works)
  pub over : s.stop ≡ returned → (s.run ≡ ended) × (s.watch ≡ gone)
  pub closed : s.stop ≡ at_wait → s.stop_chan ≡ some true
  pub heard : s.run ≡ ended → s.stop_chan ≡ some true

run_cases : (p : RunPhase) → ((p ≡ unborn) ⊎ (p ≡ works)) ⊎ ((p ≡ waits) ⊎ (p ≡ ended))
run_cases unborn = inl (inl refl)
run_cases works = inl (inr refl)
run_cases waits = inr (inl refl)
run_cases ended = inr (inr refl)

watch_cases : (p : WatchPhase) → (p ≡ absent) ⊎ ((p ≡ opens) ⊎ ((p ≡ loops) ⊎ (p ≡ gone)))
watch_cases absent = inl refl
watch_cases opens = inr (inl refl)
watch_cases loops = inr (inr (inl refl))
watch_cases gone = inr (inr (inr refl))

module _ (closes : Bool) where
  Step-Inv : {s t : Service} → Step closes s t → Inv s → Inv t
  Step-Inv (starts s h) i = ground arith
  Step-Inv (launches s h) i = ground arith
  Step-Inv (hears s h c) i = ground arith
  Step-Inv (cannot_watch s h) i = ground arith
  Step-Inv (watches s h) i = ground arith
  Step-Inv (channels_close s o h) i = ground arith
  Step-Inv (stops s h c) i = ground arith
  Step-Inv (stops_early s h c) i = ground arith
  Step-Inv (stop_returns s h c) i = ground arith

  -- From a service that was not started, whatever happens: the counter of the group is the number of its
  -- goroutines that run, and `Stop` has returned only if both of them have.
  pub Reach-Inv : {s : Service} → Reach closes unborn_service s → Inv s
  Reach-Inv here = ground arith
  Reach-Inv (next r st) = Step-Inv st (Reach-Inv r)

Step-loops : {s t : Service} → Step false s t → Inv s → s.watch ≡ loops → t.watch ≡ loops
Step-loops (starts s h) i w = w
Step-loops (launches s h) i w = ground (arith, i.unwatched)
Step-loops (hears s h c) i w = w
Step-loops (cannot_watch s h) i w = absurd (cc)
Step-loops (watches s h) i w = refl
Step-loops (channels_close s o h) i w = cc
Step-loops (stops s h c) i w = w
Step-loops (stops_early s h c) i w = w
Step-loops (stop_returns s h c) i w = w

Reach-loops :
    {s t : Service} → Reach false s t → Inv s → s.watch ≡ loops → Inv t × (t.watch ≡ loops)
Reach-loops here i w = (i, w)
Reach-loops (next r st) i w =
    let (j, v) = Reach-loops r i w in (Step-Inv false st j, Step-loops st j v)

prepend : {s t u : Service} → Step false s t → Reach false t u → Reach false s u
prepend st here = next here st
prepend st (next r last) = next (prepend st r) last

-- `Stop` can return.
abbrev pub CanReturn : Service → Type 0
CanReturn s = (t : Service) × Reach false s t × (t.stop ≡ returned)

then_returns : {s t : Service} → Step false s t → CanReturn t → CanReturn s
then_returns st (u, r, done) = (u, prepend st r, done)

from_gone : (s : Service) → Inv s → s.stop ≡ at_wait → s.watch ≡ gone → CanReturn s
from_gone s i w g = elim (run_cases s.run) [
  | inl not_yet ↦ absurd (ground (arith, i.unwatched))
  | inr (inl waiting) ↦
      let st = hears s waiting (i.closed w) in
      then_returns st (then_returns (stop_returns _ w (ground (arith, i.counts))) (_, here, refl))
  | inr (inr over) ↦ then_returns (stop_returns s w (ground (arith, i.counts))) (_, here, refl)
]

from_opens : (s : Service) → Inv s → s.stop ≡ at_wait → s.watch ≡ opens → CanReturn s
from_opens s i w o =
    let st = cannot_watch s o in then_returns st (from_gone _ (Step-Inv false st i) w refl)

from_absent : (s : Service) → Inv s → s.stop ≡ at_wait → s.watch ≡ absent → CanReturn s
from_absent s i w a = elim (i.launched a) [
  | inl early ↦ absurd (ground (arith, i.channel, i.closed))
  | inr working ↦
      let st = launches s working in then_returns st (from_opens _ (Step-Inv false st i) w refl)
]

-- Where nothing closes the channels of the watcher, a call of `Stop` that waits can return exactly when
-- the goroutine of the watcher is not in its loop: with a directory that is watched, it never returns.
pub stop-loops :
    (s : Service)
    → Reach false unborn_service s
    → s.stop ≡ at_wait
    → CanReturn s ↔ (s.watch ≢ loops)
stop-loops s r w = (
  λ (t, path, done) watching.
      let (j, still) = Reach-loops path (Reach-Inv false r) watching in ground (arith, j.over),
  λ idle. elim (watch_cases s.watch) [
    | inl none_yet ↦ from_absent s (Reach-Inv false r) w none_yet
    | inr (inl opening) ↦ from_opens s (Reach-Inv false r) w opening
    | inr (inr (inl watching)) ↦ absurd (idle watching)
    | inr (inr (inr left)) ↦ from_gone s (Reach-Inv false r) w left
  ],
)
