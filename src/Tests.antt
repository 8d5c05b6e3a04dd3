-- ===== src/Tests.antt =====
-- Runs of the model at concrete inputs, and the theorems at inputs where their hypotheses hold.
pub mod Data
mod Directory
mod Repair
mod Text
mod Codecs
mod Votes
mod Cluster
mod Commits
mod Append
mod Commit
mod Kvstore
mod Storage
mod Recovery
mod Api
mod Transport
mod Config
