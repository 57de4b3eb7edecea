-- ===== src/Gate/Keypad/Lines.antt =====
-- pigate/pkg/gate/keypad.go, `Start` and `Stop`: the two lines of the keypad. The driver of the chip
-- is a library, and a parameter here.
pub mod Release
use pigate.Prelude.{
  ℕ, String, Bool, true, false, Option, none, some, Error, wrapped, text, Result, ok, err, Outcome,
  returns, panics, M, if◌then◌else◌,
}

abbrev pub pin_d0 : ℕ
pin_d0 = 17

abbrev pub pin_d1 : ℕ
pin_d1 = 18

-- `RequestLine`, which gives a handle, and `Close` of a handle, whose error is dropped.
pub record Chip : Type 1 where
  pub State : Type 0
  pub request_line : ℕ → M State ℕ
  pub close_line : ℕ → State → State

-- `d0`, `d1`, whether `stopCh` is closed, and whether `run` was started.
pub record KeypadLines : Type 0 where
  pub d0 : Option ℕ
  pub d1 : Option ℕ
  pub stop_closed : Bool
  pub running : Bool

unfoldable pub new_lines : KeypadLines
new_lines = record { d0 = none; d1 = none; stop_closed = false; running = false }

module _ (chip : Chip) where
  open chip use {State}

  abbrev with_both : ℕ → KeypadLines → Result ℕ × State → (Result (Unit {0}) × KeypadLines) × State
  with_both d0 k (err e, s) = ((err (wrapped "request D1 line" e), k), chip.close_line d0 s)
  with_both d0 k (ok d1, s) = ((ok tt, record k { d0 = some d0; d1 = some d1; running = true }), s)

  abbrev with_d0 : KeypadLines → Result ℕ × State → (Result (Unit {0}) × KeypadLines) × State
  with_d0 k (err e, s) = ((err (wrapped "request D0 line" e), k), s)
  with_d0 k (ok d0, s) = with_both d0 k (chip.request_line pin_d1 s)

  unfoldable pub start : KeypadLines → State → (Result (Unit {0}) × KeypadLines) × State
  start k s = with_d0 k (chip.request_line pin_d0 s)

  abbrev close_if : Option ℕ → State → State
  close_if none s = s
  close_if (some line) s = chip.close_line line s

  -- A channel that is closed already is a panic.
  unfoldable pub stop : KeypadLines → State → Outcome (KeypadLines × State)
  stop k s =
      if k.stop_closed
      then panics
      else returns (record k { stop_closed = true }, close_if k.d1 (close_if k.d0 s))

-- keypad_unsupported.go, for other systems than Linux.
abbrev pub start_unsupported : Result (Unit {0})
start_unsupported = err (text "keypad reader is only supported on linux")
