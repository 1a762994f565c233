-- ===== src/Hub.antt =====
-- The hub's own machine: src/hub/hub.c, with the chart of src/hub/hub.rl.
pub mod Chart
pub mod Tables
pub mod Finish
pub mod Machine
pub mod Life
