-- ===== src/Worker.antt =====
-- The judge worker: workers/judge.
pub mod Execution
pub mod Output
pub mod Language
pub mod Diagnostics
pub mod Sandbox
pub mod RunCode
pub mod Consumer
pub mod Cache
pub mod Loader
pub mod Job
mod Examples
mod SandboxExamples
mod CacheExamples
