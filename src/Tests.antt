-- ===== src/Tests.antt =====
-- Runs of the definitions and uses of the theorems at concrete inputs.
mod History
mod Registers
mod Patching
mod Control
mod Interleavings
mod Parsing
mod Seeding
mod SharedPages
mod Markers
mod Views
mod Hooks
mod Snapshots
mod Freeing
mod Traps
mod CpuidTraps
mod Exports
mod Handoff
mod Overridden
mod Sessions
mod Guarding
mod Logging
mod Bridging
