-- ===== src/Gate/Keypad.antt =====
-- pigate/pkg/gate/keypad.go: Wiegand pulses to keys, and keys to codes.
pub mod Frame
pub mod Reader
pub mod Lines
