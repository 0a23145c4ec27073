-- ===== src/Tests.antt =====
-- Runs of the models on concrete inputs, which also show that the hypotheses of the theorems hold
-- there. `Setup` has the inputs: a box, a board, a BGLib and machines.
mod Setup
mod Parts
mod Messages
mod Program
mod Exchanges
mod Life
mod Sessions
mod Payload
mod Orders
mod Protocol
mod Database
mod Access
mod Tickets
mod Logs
