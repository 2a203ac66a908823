-- ===== src/Tests.antt =====
-- Runs of the modelled code at concrete inputs, and the theorems at such inputs.
mod Jobs
mod Runs
mod Sweeps
mod Answers
mod Workers
mod Repeats
mod Policies
mod Goals
mod Coordinator
mod Plans
mod Routes
mod Drives
mod Publications
mod Stores
mod Skills
