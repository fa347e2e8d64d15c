-- ===== src/Checks.antt =====
-- The theorems at concrete inputs, and tests of the definitions.
mod Samples
mod Manifests
mod Journal
mod Approvals
mod Delegates
mod Prompts
mod Server
mod Runtime
mod Files
