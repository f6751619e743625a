-- ===== src/Tests.antt =====
-- Runs of the model on small inputs, with concrete functions for the primitives.
mod Data
mod Auth
mod Logins
mod Tokens
mod Access
mod Limits
mod Workers
mod Accounts
mod Streaming
mod Mounts
mod Sites
mod Compose
mod Host
