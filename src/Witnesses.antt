-- ===== src/Witnesses.antt =====
-- The theorems at concrete inputs, where their hypotheses hold.
mod Data
mod Submitting
mod Trading
mod Histories
mod Running
mod Scheduling
mod Sound
mod Delivering
mod Solving
mod Observing
mod Filling
mod Building
mod Connecting
mod Calling
