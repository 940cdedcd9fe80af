-- ===== src/Tests.antt =====
-- Runs of the contracts on a platform that runs, at which the theorems apply.
mod World
mod Controller
mod Users
mod Host
mod Capturer
mod Protocol
mod Net
mod Specs
mod Mocks
mod Units
mod Opening
mod Balances
