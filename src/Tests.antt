-- ===== src/Tests.antt =====
-- Runs of the model on concrete inputs, and the theorems applied to them.
mod Fixtures
mod Reply
mod House
mod Store
mod Dialogue
mod Codex
mod Talk
mod Server
mod Admin
mod Served
mod Summaries
mod History
