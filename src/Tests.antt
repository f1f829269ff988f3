-- ===== src/Tests.antt =====
-- The theorems at concrete inputs: one small deployment, and its trades, signals and answers.
mod Data
mod Orders
mod Signals
mod Whole
mod Interface
mod Answers
mod Access
mod Program
mod Schema
mod Routes
mod Setup
mod Executes
mod Logs
