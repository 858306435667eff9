-- ===== src/Tests.antt =====
-- Runs of the development at concrete inputs.
mod Numbers
mod Making
mod Devices
mod Mounting
mod Store
mod Clients
mod Walking
mod Files
mod Growth
mod Entries
mod Removals
mod Sessions
mod Lives
mod Isolation
mod Lookups
mod Supers
mod Booting
