-- ===== src/Tests.antt =====
-- A small platform to run the program on, runs of it, and the theorems at concrete data.
pub mod Platform
mod Servers
mod Witnesses
mod Components
mod Requests
mod Scripts
mod Startup
mod Concurrency
mod Recovery
mod Verifier
mod Deployment
