-- ===== src/Gate.antt =====
-- The package pigate/pkg/gate: the relay and its timers, the credentials that open it, the keypad.
pub mod Clock
pub mod Controller
pub mod World
pub mod Access
pub mod Keypad
pub mod Duration
pub mod Pins
