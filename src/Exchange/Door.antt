-- ===== src/Exchange/Door.antt =====
-- The door: `lock` and `unlock` of
-- android/EsloqApp/app/src/main/java/com/esloq/esloqapp/lock/LockControllerImpl.java, from the user's
-- order to the motor and back to what he hears.
use esloq.Base.{ℕ, ◌≡◌, List, [], ◌∷◌, ◌++◌, Bool, some, ok, if◌then◌else◌}
use esloq.Crypto.{SecretBox}
use esloq.Mcu.{Mcu, SamePorts}
use esloq.Motor.{rotate_motor_cw, rotate_motor_ccw}
use esloq.Motor.Wait.{AtRest}
use esloq.Phone.{Phone, Tried, gave, ◌>>=◌ as try, LockResponseCode, from_integer, sign_extend}
use esloq.Phone.Controller.{Heard, heard_of}
use esloq.Phone.Notified.{notified, read_values}
use esloq.Lock.Fsm.{FsmInputs, fsm_process}
use esloq.Lock.Handlers.Buffer.{receive_parts}
use esloq.Lock.Monad.{◌>>◌}
use esloq.Lock.Handlers.Acks.{Acks, acknowledge}
use esloq.Lock.State.{Machine, Command, BgLib}
use esloq.Exchange.Cuts.{fronts, rest}
use esloq.Exchange.Step.{InStep}

-- An order has been sent; the lock has processed it and sent the rest of its response on the module's
-- acknowledgements, and has meanwhile driven its motor in the direction given, then halted it, and no
-- more; the user has heard what the phone makes of the values that the lock has sent; and phone and
-- lock are in step.
pub record Turned (box : SecretBox) (bg : BgLib) (inputs : FsmInputs) (acks : Acks)
    (cuts filler : List ℕ) (phone : Phone) (m : Machine) (sent : Tried (Phone × List ℕ))
    (clockwise : Bool) : Type 0 where
  pub sender : Phone
  pub message : List ℕ
  pub sends : sent ≡ gave (sender, message)
  pub processed : Machine
  pub runs :
      (receive_parts (fronts cuts message ++ (rest cuts message ∷ [])) >> fsm_process box bg inputs)
        m
      ≡ (processed, ok tt)
  pub after : Machine
  pub acks_come : acknowledge bg acks processed ≡ (after, ok tt)
  pub turned_mcu : Mcu
  pub answered : ℕ
  pub turns :
      (if clockwise then rotate_motor_cw else rotate_motor_ccw) inputs.rotation m.uart.mcu
      ≡ ok (turned_mcu, answered)
  pub at_rest : AtRest inputs.rotation clockwise m.uart.mcu turned_mcu
  pub as_turned : SamePorts turned_mcu after.uart.mcu
  pub given : List Command
  pub gives : after.commands ≡ given ++ m.commands
  pub reader : Phone
  pub code : LockResponseCode
  pub reads : read_values box filler (notified given) sender ≡ (reader, gave (some code))
  pub answers : from_integer (sign_extend answered) ≡ gave code
  pub heard : heard_of code ≡ some ((if clockwise then Heard.on_locked else Heard.on_unlocked) ∷ [])
  pub in_step : InStep reader after
