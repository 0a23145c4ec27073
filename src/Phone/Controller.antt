-- ===== src/Phone/Controller.antt =====
-- The orders of the user and what he hears of the answers, in
-- android/EsloqApp/app/src/main/java/com/esloq/esloqapp/lock: lock and unlock and the broadcast
-- receiver of LockControllerImpl.java, and the messages and broadcasts of BluetoothService.java.
use esloq.Base.{ℕ, List, [], ◌∷◌, Bool, Option, none, some, if◌then◌else◌, replicate}
use esloq.Crypto.{SecretBox}
use esloq.Phone.{Phone, Tried, incoming_message_length, LockResponseCode, send_encrypted_message}

pub data LockRequestCode : Type 0 where
  rotate_counter_clockwise rotate_clockwise : LockRequestCode

abbrev pub get_int_value : LockRequestCode → ℕ
get_int_value LockRequestCode.rotate_counter_clockwise = 0
get_int_value LockRequestCode.rotate_clockwise = 1

-- `rotateClockwise` and `rotateCounterClockwise` of the service.
unfoldable pub send_clockwise : SecretBox → Phone → Tried (Phone × List ℕ)
send_clockwise box phone =
    send_encrypted_message box (get_int_value LockRequestCode.rotate_clockwise ∷ []) phone

unfoldable pub send_counter_clockwise : SecretBox → Phone → Tried (Phone × List ℕ)
send_counter_clockwise box phone =
    send_encrypted_message box (get_int_value LockRequestCode.rotate_counter_clockwise ∷ []) phone

-- `lock` and `unlock`; the argument is what `locksClockwise` finds in the app's database.
unfoldable pub lock_door : SecretBox → Bool → Phone → Tried (Phone × List ℕ)
unfolding send_clockwise send_counter_clockwise
lock_door box locks_clockwise phone =
    if locks_clockwise then send_clockwise box phone else send_counter_clockwise box phone

unfoldable pub unlock_door : SecretBox → Bool → Phone → Tried (Phone × List ℕ)
unfolding send_clockwise send_counter_clockwise
unlock_door box locks_clockwise phone =
    if locks_clockwise then send_counter_clockwise box phone else send_clockwise box phone

-- `sendTicket`: the value that is written to the lock; `none` is null.
unfoldable pub send_ticket : Phone → Option (List ℕ)
send_ticket phone = phone.lock_ticket

-- `onDescriptorWrite` with GATT_SUCCESS: a new buffer for each connection.
unfoldable pub on_descriptor_write : Phone → Phone
on_descriptor_write phone = record phone {
  incoming = record { position = 0; bytes = replicate incoming_message_length 0 };
}

-- The broadcasts of the service that a response brings about.
pub data Action : Type 0 where
  action_unlocked action_locked action_invalid_request : Action
  action_ticket_rcv_success action_ticket_rcv_success_low_bat : Action

-- The `switch` of handleMessage; `none` is no broadcast.
unfoldable pub broadcast_of : LockResponseCode → Option Action
broadcast_of LockResponseCode.unlocked = some Action.action_unlocked
broadcast_of LockResponseCode.locked = some Action.action_locked
broadcast_of LockResponseCode.ticket_rcv_success = some Action.action_ticket_rcv_success
broadcast_of LockResponseCode.ticket_rcv_success_low_bat =
    some Action.action_ticket_rcv_success_low_bat
broadcast_of LockResponseCode.ticket_rcv_failure = none
broadcast_of LockResponseCode.invalid_request = some Action.action_invalid_request

-- The calls of the listener.
pub data Heard : Type 0 where
  lock_ready low_battery on_unlocked on_locked : Heard

-- `onReceive` of the broadcast receiver; `none` is RuntimeException.
unfoldable pub on_receive : Action → Option (List Heard)
on_receive Action.action_unlocked = some (Heard.on_unlocked ∷ [])
on_receive Action.action_locked = some (Heard.on_locked ∷ [])
on_receive Action.action_invalid_request = none
on_receive Action.action_ticket_rcv_success = some (Heard.lock_ready ∷ [])
on_receive Action.action_ticket_rcv_success_low_bat =
    some (Heard.lock_ready ∷ Heard.low_battery ∷ [])

-- What a response has the listener hear.
unfoldable pub heard_of : LockResponseCode → Option (List Heard)
unfolding broadcast_of on_receive
heard_of code = elim (broadcast_of code) [ none ↦ some [] | some action ↦ on_receive action ]
