-- ===== src/Tests.antt =====
-- Runs of the model at concrete inputs, and the theorems at inputs that meet their hypotheses.
mod RateLimit
mod Tracking
mod Rag
mod Memory
mod Http
mod Evaluation
mod Pipeline
mod Storage
mod Snapshot
mod Monitoring
mod Endpoints
mod Prompts
mod Sweep
mod Tracker
mod Runner
