-- ===== src/Tests.antt =====
-- Each result at a concrete state, and runs of single operations.
mod World
mod Schedules
mod Queueing
mod Lives
mod Machine
mod Traps
mod Storage
mod Programs
mod Shell
mod Devices
mod Images
