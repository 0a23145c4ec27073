-- ===== src/Lock.antt =====
-- firmware/avr/src/main.c: the state machine of the lock, its protocol and its main loop.
pub mod Stubs
pub mod State
pub mod WellFormed
pub mod Monad
pub mod Steady
pub mod Quiet
pub mod Board
pub mod Send
pub mod Respond
pub mod Ticket
pub mod Request
pub mod Advert
pub mod Handlers
pub mod Fsm
pub mod Protocol
pub mod Loop
pub mod Reset
