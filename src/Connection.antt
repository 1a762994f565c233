-- ===== src/Connection.antt =====
-- The hub's side of one connection: src/hub/connection.c, src/hub/connection_state.c.
pub mod Events
pub mod States
pub mod Tables
pub mod Chart
pub mod Agreement
pub mod World
pub mod Exec
pub mod Nested
pub mod Valid
pub mod Steps
pub mod Reading
pub mod Opening
pub mod Safe
pub mod Life
pub mod Outgoing
pub mod Abort
