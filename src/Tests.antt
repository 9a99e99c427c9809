-- ===== src/Tests.antt =====
-- A concrete server, and the theorems on it.
mod Codec
mod Coding
mod Server
mod Witnesses
mod Followers
mod Discovery
mod Environment
mod Tools
mod Setup
