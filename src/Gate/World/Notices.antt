-- ===== src/Gate/World/Notices.antt =====
-- The published statuses against the changes of the state.
use pigate.Prelude.{
  ℕ, zero, suc, ◌+◌, ◌≡◌, refl, ap, ◌⊎◌, inl, inr, true, false, none, some, List, [], ◌∷◌, ◌++◌,
  arith, get_elem?, string_eq, append_assoc, append-nil, Option-cases,
}
use mathlib.Core.Logic.{ite}
use pigate.Messenger.Messages.{command_close_message}
use pigate.Gate.Controller.{
  GateState, closed, opened, locked_open, Status, gate_open, gate_locked_open, gate_closed,
}
use pigate.Gate.World.{
  temporary, Event, World, passes, enters, receives, wakes, publishes, fails, shuts, step, run,
  remove_at,
}

pub Status-discrete : Discrete Status
Status-discrete = hlevel

-- The status that a change of the state is worth.
abbrev pub change : GateState → GateState → List Status
change closed closed = []
change opened opened = []
change locked_open locked_open = []
change before opened = gate_open ∷ []
change before locked_open = gate_locked_open ∷ []
change before closed = gate_closed ∷ []

-- The changes of the state along a run.
pub history : List Event → World → List Status
history [] w = []
history (e ∷ es) w = change w.gate.state (step e w).gate.state ++ history es (step e w)

abbrev pub count : Status → List Status → ℕ
count s [] = 0
count s (x ∷ xs) = let rest = count s xs in ite (Status-discrete x s) (suc rest) rest

pub count-append : (s : Status) (xs ys : List Status) → count s (xs ++ ys) ≡ count s xs + count s ys
count-append s [] ys = omega arith
count-append s (x ∷ xs) ys = ground (arith, count-append s xs ys)

count-remove_at :
    (s : Status) (i : ℕ) (xs : List Status) (x : Status)
    → get_elem? xs i ≡ some x
    → count s xs ≡ count s (remove_at i xs) + count s (x ∷ [])
count-remove_at s i [] x q = absurd (cc)
count-remove_at s zero (y ∷ xs) x q = ground arith
count-remove_at s (suc i) (y ∷ xs) x q = ground (arith, count-remove_at s i xs x q)

-- How often a status was published, was lost, or is still to be published.
abbrev pub tally : Status → World → ℕ
tally s w = count s w.published + count s w.lost + count s w.gate.notices

take_back :
    (s x : Status) (i : ℕ) (xs ys : List Status)
    → get_elem? xs i ≡ some x
    → count s (ys ++ x ∷ []) + count s (remove_at i xs) ≡ count s ys + count s xs
take_back s x i xs ys q = omega (arith, count-remove_at s i xs x q, count-append s ys (x ∷ []))

change_same : (g : GateState) → change g g ≡ []
change_same closed = refl
change_same opened = refl
change_same locked_open = refl

abbrev pub Announces : Event → Type 0
Announces (publishes i) = ⊥
Announces (fails i) = ⊥
Announces _ = Unit

-- Where nothing is published, what is still to be published grows by the change of the state.
pub record Announced (w u : World) : Type 0 where
  pub pending : u.gate.notices ≡ w.gate.notices ++ change w.gate.state u.gate.state
  pub published_same : u.published ≡ w.published
  pub lost_same : u.lost ≡ w.lost
  pub notifier : u.gate.has_notifier ≡ true

pub step-Announced :
    (e : Event) (w : World) → Announces e → w.gate.has_notifier ≡ true → Announced w (step e w)
unfolding step
step-Announced (passes n) w a h =
    ground (arith, append-nil w.gate.notices, change_same w.gate.state)
step-Announced (publishes i) w a h = absurd a
step-Announced (fails i) w a h = absurd a
step-Announced e w a h = ground (arith, append-nil w.gate.notices)

-- Without a notifier nothing is left to publish.
pub step-has_notifier :
    (e : Event) (w : World)
    → Announces e
    → w.gate.has_notifier ≡ false
    → ((step e w).gate.has_notifier ≡ false) × ((step e w).gate.notices ≡ w.gate.notices)
unfolding step
step-has_notifier (publishes i) w a h = absurd a
step-has_notifier (fails i) w a h = absurd a
step-has_notifier e w a h = ground arith

pub publishes_step :
    (i : ℕ) (w : World)
    → (get_elem? w.gate.notices i ≡ none) × (step (publishes i) w ≡ w)
      ⊎ ((x : Status) × (get_elem? w.gate.notices i ≡ some x)
          × (step (publishes i) w ≡ record w {
            gate = record (w.gate) { notices = remove_at i w.gate.notices };
            published = w.published ++ x ∷ [];
          }))
unfolding step
publishes_step i w = elim (Option-cases (get_elem? w.gate.notices i)) [
  | inl gone ↦ inl (gone, ground arith)
  | inr (x, found) ↦ inr (x, found, ground arith)
]

fails_step :
    (i : ℕ) (w : World)
    → (get_elem? w.gate.notices i ≡ none) × (step (fails i) w ≡ w)
      ⊎ ((x : Status) × (get_elem? w.gate.notices i ≡ some x)
          × (step (fails i) w ≡ record w {
            gate = record (w.gate) { notices = remove_at i w.gate.notices };
            lost = w.lost ++ x ∷ [];
          }))
unfolding step
fails_step i w = elim (Option-cases (get_elem? w.gate.notices i)) [
  | inl gone ↦ inl (gone, ground arith)
  | inr (x, found) ↦ inr (x, found, ground arith)
]

abbrev Tallied : Status → World → World → Type 0
Tallied s w u =
    (tally s u ≡ tally s w + count s (change w.gate.state u.gate.state))
    × (u.gate.has_notifier ≡ true)

same-Tallied : (s : Status) (w : World) → w.gate.has_notifier ≡ true → Tallied s w w
same-Tallied s w h = ground (arith, change_same w.gate.state)

Announced-Tallied : (s : Status) (w u : World) → Announced w u → Tallied s w u
Announced-Tallied s w u a = (
  omega (
    arith,
    ap (count s) a.pending,
    ap (count s) a.published_same,
    ap (count s) a.lost_same,
    count-append s w.gate.notices (change w.gate.state u.gate.state),
  ),
  a.notifier,
)

tally-step :
    (s : Status) (e : Event) (w : World) → w.gate.has_notifier ≡ true → Tallied s w (step e w)
tally-step s (publishes i) w h = elim (publishes_step i w) [
  | inl (gone, same) ↦ rw same (same-Tallied s w h)
  | inr (x, found, moved) ↦
      rw (moved, change_same) (omega (arith, take_back s x i w.gate.notices w.published found), h)
]
tally-step s (fails i) w h = elim (fails_step i w) [
  | inl (gone, same) ↦ rw same (same-Tallied s w h)
  | inr (x, found, moved) ↦
      rw (moved, change_same) (omega (arith, take_back s x i w.gate.notices w.lost found), h)
]
tally-step s (passes n) w h = Announced-Tallied s w _ (step-Announced (passes n) w tt h)
tally-step s (enters d) w h = Announced-Tallied s w _ (step-Announced (enters d) w tt h)
tally-step s (receives msg) w h = Announced-Tallied s w _ (step-Announced (receives msg) w tt h)
tally-step s (wakes i) w h = Announced-Tallied s w _ (step-Announced (wakes i) w tt h)
tally-step s shuts w h = Announced-Tallied s w _ (step-Announced shuts w tt h)

-- With a notifier set, every change of the state is announced exactly once: after any events, and
-- in whatever order the goroutines have run, the number of times that a status was published, was
-- lost, or is still to be published has grown by how often the state has changed to what the status
-- stands for.
pub tally-run :
    (s : Status) (es : List Event) (w : World)
    → w.gate.has_notifier ≡ true
    → tally s (run es w) ≡ tally s w + count s (history es w)
unfolding run history
tally-run s [] w h = omega arith
tally-run s (e ∷ es) w h =
    let (one, on) = tally-step s e w h in
    omega (
      arith,
      one,
      tally-run s es (step e w) on,
      count-append s (change w.gate.state (step e w).gate.state) (history es (step e w)),
    )

-- The goroutines need not publish in the order in which they were started. With a notifier set, an opening and a command to
-- close, from a closed gate with nothing left to publish, can be published the other way round: the
-- gate is closed, nothing is left to publish, and the last status that the broker got says that the
-- gate is open.
pub stale_status :
    (w : World)
    → w.gate.state ≡ closed
    → w.gate.has_notifier ≡ true
    → w.gate.notices ≡ []
    → let u =
        run
          (enters temporary ∷ receives command_close_message ∷ publishes 1 ∷ publishes 0 ∷ [])
          w in
      (u.gate.state ≡ closed)
      × (u.gate.notices ≡ [])
      × (u.published ≡ w.published ++ gate_closed ∷ gate_open ∷ [])
unfolding run step string_eq
stale_status w shut on none_left =
    ground (arith, append_assoc w.published (gate_closed ∷ []) (gate_open ∷ []))
