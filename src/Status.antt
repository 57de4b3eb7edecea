-- ===== src/Status.antt =====
-- The status server, pigate/cmd/statusserver/main.go.
pub mod State
pub mod Store
pub mod Commands
pub mod Server
pub mod Page
pub mod Http
