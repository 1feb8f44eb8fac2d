-- ===== src/Examples.antt =====
-- The theorems at concrete inputs.
mod Service
mod Answers
mod Memory
mod Connections
mod Server
mod Start
mod Lines
mod Requests
