-- ===== src/Examples.antt =====
-- Tests, and instances of the theorems at concrete inputs.
mod Machines
mod Artifacts
mod Access
mod Trail
mod Links
mod Versions
mod Platform
mod Tenants
