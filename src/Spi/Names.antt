-- ===== src/Spi/Names.antt =====
-- The names of the states in firmware/avr/src/strings.c.
use esloq.Base.{ℕ, List, [], ◌∷◌}
use esloq.Lock.State.{State}

-- The value of an enumerator, which indexes the table.
abbrev pub state_index : State → ℕ
state_index State.reset = 0
state_index State.ble_boot_w = 1
state_index State.ble_boot = 2
state_index State.system_address_get_w = 3
state_index State.system_address_get = 4
state_index State.adv_param_set_w = 5
state_index State.adv_param_set = 6
state_index State.adv_data_set_w = 7
state_index State.adv_data_set = 8
state_index State.adv_sr_data_set_w = 9
state_index State.adv_sr_data_set = 10
state_index State.advertising_w = 11
state_index State.advertising = 12
state_index State.adv_sleep_w = 13
state_index State.adv_sleep = 14
state_index State.connected = 15
state_index State.ticket = 16
state_index State.request_w = 17
state_index State.request = 18
state_index State.disconnected = 19

-- `state_names`, each with its terminator.
abbrev pub state_names : List (List ℕ)
state_names =
    (b'r' ∷ b'e' ∷ b's' ∷ b'e' ∷ b't' ∷ 0 ∷ [])
    ∷ (b'b' ∷ b'l' ∷ b'e' ∷ b'_' ∷ b'b' ∷ b'o' ∷ b'o' ∷ b't' ∷ b'_' ∷ b'w' ∷ 0 ∷ [])
    ∷ (b'b' ∷ b'l' ∷ b'e' ∷ b'_' ∷ b'b' ∷ b'o' ∷ b'o' ∷ b't' ∷ 0 ∷ [])
    ∷ (b's' ∷ b'y' ∷ b's' ∷ b't' ∷ b'e' ∷ b'm' ∷ b'_' ∷ b'a' ∷ b'd' ∷ b'd' ∷ b'r' ∷ b'e' ∷ b's'
        ∷ b's' ∷ b'_' ∷ b'g' ∷ b'e' ∷ b't' ∷ b'_' ∷ b'w' ∷ 0 ∷ [])
    ∷ (b's' ∷ b'y' ∷ b's' ∷ b't' ∷ b'e' ∷ b'm' ∷ b'_' ∷ b'a' ∷ b'd' ∷ b'd' ∷ b'r' ∷ b'e' ∷ b's'
        ∷ b's' ∷ b'_' ∷ b'g' ∷ b'e' ∷ b't' ∷ 0 ∷ [])
    ∷ (b'b' ∷ b'l' ∷ b'e' ∷ b'_' ∷ b'a' ∷ b'd' ∷ b'v' ∷ b'_' ∷ b'p' ∷ b'a' ∷ b'r' ∷ b'a' ∷ b'm'
        ∷ b'_' ∷ b's' ∷ b'e' ∷ b't' ∷ b'_' ∷ b'w' ∷ 0 ∷ [])
    ∷ (b'b' ∷ b'l' ∷ b'e' ∷ b'_' ∷ b'a' ∷ b'd' ∷ b'v' ∷ b'_' ∷ b'p' ∷ b'a' ∷ b'r' ∷ b'a' ∷ b'm'
        ∷ b'_' ∷ b's' ∷ b'e' ∷ b't' ∷ 0 ∷ [])
    ∷ (b'b' ∷ b'l' ∷ b'e' ∷ b'_' ∷ b'a' ∷ b'd' ∷ b'v' ∷ b'_' ∷ b'd' ∷ b'a' ∷ b't' ∷ b'a' ∷ b'_'
        ∷ b's' ∷ b'e' ∷ b't' ∷ b'_' ∷ b'w' ∷ 0 ∷ [])
    ∷ (b'b' ∷ b'l' ∷ b'e' ∷ b'_' ∷ b'a' ∷ b'd' ∷ b'v' ∷ b'_' ∷ b'd' ∷ b'a' ∷ b't' ∷ b'a' ∷ b'_'
        ∷ b's' ∷ b'e' ∷ b't' ∷ 0 ∷ [])
    ∷ (b'b' ∷ b'l' ∷ b'e' ∷ b'_' ∷ b'a' ∷ b'd' ∷ b'v' ∷ b'_' ∷ b's' ∷ b'r' ∷ b'_' ∷ b'd' ∷ b'a'
        ∷ b't' ∷ b'a' ∷ b'_' ∷ b's' ∷ b'e' ∷ b't' ∷ b'_' ∷ b'w' ∷ 0 ∷ [])
    ∷ (b'b' ∷ b'l' ∷ b'e' ∷ b'_' ∷ b'a' ∷ b'd' ∷ b'v' ∷ b'_' ∷ b's' ∷ b'r' ∷ b'_' ∷ b'd' ∷ b'a'
        ∷ b't' ∷ b'a' ∷ b'_' ∷ b's' ∷ b'e' ∷ b't' ∷ 0 ∷ [])
    ∷ (b'a' ∷ b'd' ∷ b'v' ∷ b'e' ∷ b'r' ∷ b't' ∷ b'i' ∷ b's' ∷ b'i' ∷ b'n' ∷ b'g' ∷ b'_' ∷ b'w' ∷ 0
        ∷ [])
    ∷ (b'a' ∷ b'd' ∷ b'v' ∷ b'e' ∷ b'r' ∷ b't' ∷ b'i' ∷ b's' ∷ b'i' ∷ b'n' ∷ b'g' ∷ 0 ∷ [])
    ∷ (b'a' ∷ b'd' ∷ b'v' ∷ b'_' ∷ b's' ∷ b'l' ∷ b'e' ∷ b'e' ∷ b'p' ∷ b'_' ∷ b'w' ∷ 0 ∷ [])
    ∷ (b'a' ∷ b'd' ∷ b'v' ∷ b'_' ∷ b's' ∷ b'l' ∷ b'e' ∷ b'e' ∷ b'p' ∷ 0 ∷ [])
    ∷ (b'c' ∷ b'o' ∷ b'n' ∷ b'n' ∷ b'e' ∷ b'c' ∷ b't' ∷ b'e' ∷ b'd' ∷ 0 ∷ [])
    ∷ (b't' ∷ b'i' ∷ b'c' ∷ b'k' ∷ b'e' ∷ b't' ∷ 0 ∷ [])
    ∷ (b'r' ∷ b'e' ∷ b'q' ∷ b'u' ∷ b'e' ∷ b's' ∷ b't' ∷ b'_' ∷ b'w' ∷ 0 ∷ [])
    ∷ (b'r' ∷ b'e' ∷ b'q' ∷ b'u' ∷ b'e' ∷ b's' ∷ b't' ∷ 0 ∷ [])
    ∷ (b'd' ∷ b'i' ∷ b's' ∷ b'c' ∷ b'o' ∷ b'n' ∷ b'n' ∷ b'e' ∷ b'c' ∷ b't' ∷ b'e' ∷ b'd' ∷ 0 ∷ [])
    ∷ []
