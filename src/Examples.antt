-- ===== src/Examples.antt =====
-- Runs of the model, and the theorems at concrete data.
mod Data
mod Keypad
mod Gate
mod Access
mod Database
mod Dynamo
mod Parser
mod Status
mod Programs
mod Services
mod System
mod Registry
mod Http
mod Connection
mod Pins
mod Updating
