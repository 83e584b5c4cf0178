-- ===== src/Examples.antt =====
-- Tests of the definitions, and the theorems at concrete inputs.
mod Memory
mod Texts
mod Markets
mod Accounts
mod Logins
mod Webhooks
mod Prompts
mod Tables
mod Store
mod States
mod Running
mod Undoing
mod Keys
mod Services
mod Sessions
mod Throttling
