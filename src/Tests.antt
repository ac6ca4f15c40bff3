-- ===== src/Tests.antt =====
-- Concrete inputs, the theorems applied to them, and runs of the model.
mod Platform
mod Plans
mod Examples
mod Server
mod Admission
mod Runs
mod Histories
