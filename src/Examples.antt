-- ===== src/Examples.antt =====
-- The theorems at concrete inputs, and the data that these share.
mod Addresses
mod Buffers
mod Configs
mod Alerts
mod Flows
mod Rules
mod Runs
mod Halves
mod Histories
mod Starts
mod Traffic
mod Scripts
mod Scrapes
mod Searches
mod Payloads
