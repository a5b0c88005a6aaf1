-- ===== src/Scenarios.antt =====
-- A build and a workflow on concrete hosts.
mod Setting
mod Engine
mod Ending
mod Parts
mod Board
mod Documents
mod Journey
mod Service
mod Projects
