-- ===== src/System/Telling.antt =====
-- What the gate tells of its state, from the start of its program on.
use pigate.Prelude.{
  ℕ, ◌≡◌, refl, ap, ◌∙◌, ◌≢◌, sym, inl, inr, Bool, true, false, ◌&&◌, ◌||◌, not, Bool-cases, arith,
  String, List, [], ◌∷◌, ◌++◌, ℤ, append-nil,
}
use pigate.Gate.Controller.{closed, Status, gate_closed, set_status_notifier}
use pigate.Gate.World.{Event, World, passes, enters, receives, wakes, publishes, fails, shuts, step}
use pigate.Gate.World.Notices.{
  Announces, Announced, change, step-has_notifier, step-Announced, publishes_step,
}
use pigate.System.{
  payload_of, new_world, Phase, silent, notified, told, serving, is_changed, early_after, Acts,
}
use pigate.System.Statuses.{
  last_of, last_of-append, last_of-moved, shown, payloads, payloads-append, is_changed-same,
}

pub Acts-Announces : (e : Event) → Acts e → Announces e
Acts-Announces (passes n) a = tt
Acts-Announces (enters d) a = tt
Acts-Announces (receives message) a = absurd a
Acts-Announces (wakes i) a = tt
Acts-Announces (publishes i) a = absurd a
Acts-Announces (fails i) a = absurd a
Acts-Announces shuts a = tt

-- The gate is closed and has nothing to publish.
pub record IsQuiet (w : World) : Type 0 where
  pub shut : w.gate.state ≡ closed
  pub none_left : w.gate.notices ≡ []

-- Once the waiting goroutines have published, the retained message is the state.
pub record IsTold (retained : List String) (w : World) : Type 0 where
  pub told_last :
      (x : String) → last_of (last_of x retained) (payloads w.gate.notices) ≡ shown w.gate.state

abbrev pub Known : Phase → List String → World → Type 0
Known silent retained w = IsQuiet w
Known notified retained w = IsQuiet w
Known told retained w = IsTold retained w
Known serving retained w = IsTold retained w

abbrev pub has_notifier : Phase → Bool
has_notifier silent = false
has_notifier _ = true

-- The gate's side.
pub record GateSide (phase : Phase) (early : Bool) (retained : List String) (w : World)
    : Type 0 where
  pub notifier : w.gate.has_notifier ≡ has_notifier phase
  pub known : early ≡ false → Known phase retained w

or_false : (a b : Bool) → a || b ≡ false → (a ≡ false) × (b ≡ false)
or_false a b h = ground arith

-- An event before the notifier, or before the first status, that changes nothing.
IsQuiet-step :
    (w u : World) (news : List Status)
    → is_changed w.gate.state u.gate.state ≡ false
    → u.gate.notices ≡ w.gate.notices ++ news
    → news ≡ []
    → IsQuiet w
    → IsQuiet u
IsQuiet-step w u news same left none_new q = record {
  shut = sym (is_changed-same w.gate.state u.gate.state same).0 ∙ q.shut;
  none_left = left ∙ rw (q.none_left, none_new) refl;
}

-- An event after the first status: it changes the state, or the last status was that of the state.
IsTold-step :
    (retained : List String) (early : Bool) (w u : World)
    → Announced w u
    → (early ≡ false → IsTold retained w)
    → early && not (is_changed w.gate.state u.gate.state) ≡ false
    → IsTold retained u
IsTold-step retained early w u a before h = record {
  told_last = λ x.
      let news = change w.gate.state u.gate.state in
      let y = last_of (last_of x retained) (payloads w.gate.notices) in
      ap (λ l. last_of (last_of x retained) (payloads l)) a.pending
      ∙ ap (last_of (last_of x retained)) (payloads-append w.gate.notices news)
      ∙ last_of-append (last_of x retained) (payloads w.gate.notices) (payloads news)
      ∙ elim (Bool-cases (is_changed w.gate.state u.gate.state)) [
        | inl moved ↦ last_of-moved y w.gate.state u.gate.state moved
        | inr same ↦
            let (kept, no_news) = is_changed-same w.gate.state u.gate.state same in
            let late : early ≡ false = ground arith in
            ap (λ l. last_of y (payloads l)) no_news ∙ (before late).told_last x ∙ ap shown kept
      ];
}

pub gate_step-GateSide :
    (phase : Phase) (early : Bool) (retained : List String) (e : Event) (w : World)
    → Announces e
    → GateSide phase early retained w
    → GateSide phase
        (early_after phase early (is_changed w.gate.state (step e w).gate.state))
        retained
        (step e w)
gate_step-GateSide silent early retained e w a g =
    let (off, left) = step-has_notifier e w a g.notifier in
    record {
      notifier = off;
      known = λ h.
          let (late, same) = or_false early _ h in
          IsQuiet-step w (step e w) [] same (left ∙ sym (append-nil w.gate.notices)) refl
            (g.known late);
    }
gate_step-GateSide notified early retained e w a g =
    let news = step-Announced e w a g.notifier in
    record {
      notifier = news.notifier;
      known = λ h.
          let (late, same) = or_false early _ h in
          IsQuiet-step w (step e w) _ same news.pending (is_changed-same _ _ same).1 (g.known late);
    }
gate_step-GateSide told early retained e w a g =
    let news = step-Announced e w a g.notifier in
    record {
      notifier = news.notifier;
      known = IsTold-step retained early w (step e w) news g.known;
    }
gate_step-GateSide serving early retained e w a g =
    let news = step-Announced e w a g.notifier in
    record {
      notifier = news.notifier;
      known = IsTold-step retained early w (step e w) news g.known;
    }

-- A goroutine publishes.
publish-IsTold :
    (status : Status) (rest : List Status) (retained : List String) (w u : World)
    → w.gate.notices ≡ status ∷ rest
    → u.gate.notices ≡ rest
    → u.gate.state ≡ w.gate.state
    → IsTold retained w
    → IsTold (payload_of status ∷ []) u
publish-IsTold status rest retained w u q left same t = record {
  told_last = λ x. rw (left, same) (rw q at t.told_last x);
}

pub left_after :
    (status : Status) (rest : List Status) (w : World)
    → w.gate.notices ≡ status ∷ rest
    → ((step (publishes 0) w).gate.notices ≡ rest)
      × ((step (publishes 0) w).gate.state ≡ w.gate.state)
      × ((step (publishes 0) w).gate.has_notifier ≡ w.gate.has_notifier)
left_after status rest w q = elim (publishes_step 0 w) [
  | inl (gone, same) ↦ absurd (cc)
  | inr (x, found, moved) ↦ rw moved (rw q refl, refl, refl)
]

cons-ne-nil : (x : Status) (xs : List Status) → x ∷ xs ≢ []
cons-ne-nil x xs h = absurd (cc)

pub publish-GateSide :
    (phase : Phase) (early : Bool) (status : Status) (rest : List Status) (retained : List String)
    (w : World)
    → w.gate.notices ≡ status ∷ rest
    → GateSide phase early retained w
    → GateSide phase early (payload_of status ∷ []) (step (publishes 0) w)
publish-GateSide silent early status rest retained w q g =
    let (left, same, kept) = left_after status rest w q in
    record {
      notifier = kept ∙ g.notifier;
      known = λ h. absurd (cons-ne-nil status rest (sym q ∙ (g.known h).none_left));
    }
publish-GateSide notified early status rest retained w q g =
    let (left, same, kept) = left_after status rest w q in
    record {
      notifier = kept ∙ g.notifier;
      known = λ h. absurd (cons-ne-nil status rest (sym q ∙ (g.known h).none_left));
    }
publish-GateSide told early status rest retained w q g =
    let (left, same, kept) = left_after status rest w q in
    record {
      notifier = kept ∙ g.notifier;
      known = λ h. publish-IsTold status rest retained w _ q left same (g.known h);
    }
publish-GateSide serving early status rest retained w q g =
    let (left, same, kept) = left_after status rest w q in
    record {
      notifier = kept ∙ g.notifier;
      known = λ h. publish-IsTold status rest retained w _ q left same (g.known h);
    }

pub fresh-GateSide :
    (duration : ℤ) (now : ℕ) (retained : List String)
    → GateSide silent false retained (new_world duration now)
unfolding new_world
fresh-GateSide duration now retained = record {
  notifier = refl;
  known = λ h. record { shut = refl; none_left = refl };
}

pub set_status_notifier-GateSide :
    (early : Bool) (retained : List String) (w : World)
    → GateSide silent early retained w
    → GateSide notified early retained (record w { gate = set_status_notifier w.gate })
unfolding set_status_notifier
set_status_notifier-GateSide early retained w g = record {
  notifier = refl;
  known = λ h. record { shut = (g.known h).shut; none_left = (g.known h).none_left };
}

pub tell-GateSide :
    (early : Bool) (retained : List String) (w : World)
    → GateSide notified early retained w
    → GateSide told early (payload_of gate_closed ∷ []) w
tell-GateSide early retained w g = record {
  notifier = g.notifier;
  known = λ h. record { told_last = λ x. rw ((g.known h).none_left, (g.known h).shut) refl };
}
