-- ===== src/Gate/Keypad/Lines/Release.antt =====
-- That no line is kept.
use pigate.Prelude.{
  ℕ, ◌≡◌, refl, ◌⊎◌, inl, inr, true, List, [], ◌∷◌, ◌++◌, Error, Result, ok, err, returns, panics,
  suc, eqb, if◌then◌else◌, arith, Result-cases,
}
use pigate.Gate.Keypad.Lines.{Chip, KeypadLines, new_lines, pin_d0, pin_d1, start, stop}

pub data Use : Type 0 where
  requested closed : ℕ → Use

abbrev noted : {S : Type 0} → List Use → Result ℕ × S → Result ℕ × (S × List Use)
noted uses (err e, s) = (err e, (s, uses))
noted uses (ok line, s) = (ok line, (s, uses ++ requested line ∷ []))

-- A driver that also notes the handles that it gives and takes back.
abbrev pub noting : Chip → Chip
noting chip = record {
  State = chip.State × List Use;
  request_line = λ pin s. noted s.1 (chip.request_line pin s.0);
  close_line = λ line s. (chip.close_line line s.0, s.1 ++ closed line ∷ []);
}

abbrev pub balance : ℕ → List Use → ℕ × ℕ
balance line [] = (0, 0)
balance line (requested l ∷ uses) =
    let (given, taken) = balance line uses in
    if eqb l line then (suc given, taken) else (given, taken)
balance line (closed l ∷ uses) =
    let (given, taken) = balance line uses in
    if eqb l line then (given, suc taken) else (given, taken)

-- Every handle was closed as often as it was given.
abbrev pub IsReleased : List Use → Type 0
IsReleased uses = (line : ℕ) → (balance line uses).0 ≡ (balance line uses).1

one-IsReleased : (a : ℕ) → IsReleased (requested a ∷ closed a ∷ [])
one-IsReleased a line = ground arith

two-IsReleased : (a b : ℕ) → IsReleased (requested a ∷ requested b ∷ closed a ∷ closed b ∷ [])
two-IsReleased a b line = ground arith

module _ (chip : Chip) (s : chip.State) where
  -- A reader that was not started before either fails to start, is as before, and keeps no line; or it
  -- runs, and `Stop` gives back both lines. To stop it once more panics.
  pub start-stop :
      let ((r, k), s1) = start (noting chip) new_lines (s, []) in
      ((e : Error) × (r ≡ err e) × (k ≡ new_lines) × IsReleased s1.1)
      ⊎ ((r ≡ ok tt)
          × (k.running ≡ true)
          × (k' : KeypadLines) × (s2 : chip.State × List Use) × (stop (noting chip) k s1
              ≡ returns (k', s2))
          × IsReleased s2.1
          × (stop (noting chip) k' s2 ≡ panics))
  unfolding start stop new_lines
  start-stop = elim (Result-cases (chip.request_line pin_d0 s).0) [
    | inr (e, failed) ↦ rw failed (inl (_, refl, refl, λ line. refl))
    | inl (d0, got) ↦
        elim (Result-cases (chip.request_line pin_d1 (chip.request_line pin_d0 s).1).0) [
          | inr (e, failed) ↦ rw (got, failed) (inl (_, refl, refl, one-IsReleased d0))
          | inl (d1, both) ↦
              rw (got, both) (inr (refl, refl, _, _, refl, two-IsReleased d0 d1, refl))
        ]
  ]
