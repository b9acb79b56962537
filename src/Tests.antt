-- ===== src/Tests.antt =====
-- The theorems applied to concrete inputs, and runs of the definitions.
mod Toy
mod Transport
mod Packets
mod Encryption
mod Edits
mod Greeting
mod Sharing
mod Logins
mod Storage
mod Keys
mod Fields
mod Settings
mod Sessions
mod Aging
