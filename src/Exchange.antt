-- ===== src/Exchange.antt =====
-- The exchanges of the protocol from end to end: what the server (webserver/esloq/lib/nacl_module)
-- or the phone (android/EsloqApp/app/src/main/jni) seals is delivered to the lock
-- (firmware/avr/src/main.c) in parts, processed, and answered by what the phone opens.
mod Message
pub mod Cuts
pub mod Step
pub mod Race
pub mod Door
pub mod Login
pub mod Order
pub mod Orders
pub mod Session
pub mod Start
