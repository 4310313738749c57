-- ===== src/Examples.antt =====
-- Runs of the operations at concrete inputs: a concrete environment, and the theorems applied to it.
mod Base
mod Tools
mod Sessions
mod Creations
mod Requests
mod Runs
mod Callbacks
mod Members
mod Keys
mod Guards
mod Folders
mod Pipeline
mod AccessTokens
mod Month
mod Mailbox
mod Scans
