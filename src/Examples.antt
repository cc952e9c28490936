-- ===== src/Examples.antt =====
-- Runs on concrete inputs, one file for each group of components.
mod Wire
mod Processes
mod Kills
mod Calls
mod Events
mod Stats
mod Server
mod Files
