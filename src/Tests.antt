-- ===== src/Tests.antt =====
-- Examples: concrete runs of the theorems on toy crates.
mod Toy
mod ToyBiscuit
mod Chain
mod Witnesses
mod Issuances
mod Rotations
mod Presentations
mod Records
mod Audits
mod Statuses
mod Owners
mod Workloads
mod Keysets
