-- ===== src/Tests.antt =====
-- Runs on concrete inputs: the program's parts evaluated, and the theorems applied.
mod Clients
mod Configs
mod Crypto
mod Databases
mod Data
mod Schedule
mod Days
mod Hosts
mod Reports
mod Networks
mod Probes
mod Runs
mod Sends
mod State
mod Logs
