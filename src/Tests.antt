-- ===== src/Tests.antt =====
-- The theorems at concrete inputs, and tests of the model.
mod Arithmetic
mod Engine
mod QState
mod Tokens
mod LiveAuthz
mod Replay
mod Scenario
mod Target
mod Authz
mod Config
mod Canonical
mod Yaml
mod Journal
