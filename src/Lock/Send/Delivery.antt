-- ===== src/Lock/Send/Delivery.antt =====
-- A command is sent where the module takes its bytes in time.
use esloq.Base.{◌+◌, ◌%◌, ◌^◌, ◌≤◌, ◌≡◌, List, ◌∷◌, true, ok, length, arith}
use esloq.Mcu.{SamePorts}
use esloq.Uart.{Uart, Window, cnt_threshold}
use esloq.Uart.Delivery.{all_clear, uart_tx-sent}
use esloq.Lock.State.{Machine, Command, BgLib}
use esloq.Lock.Send.{uart_timeout, after_tx, ble_send_packet, ble_cmd}

-- The windows are enough for the packet of `c` with its length, and the module takes each byte in
-- time.
pub record Takes (bg : BgLib) (c : Command) (w : Window) (ws : List Window) : Type 0 where
  pub enough : length (bg.data1 c) + length (bg.data2 c) ≤ length ws
  pub in_time : all_clear (cnt_threshold uart_timeout) (w ∷ ws) ≡ true

pub ble_cmd-sent :
    (bg : BgLib) (c : Command) (w : Window) (ws : List Window) (m : Machine)
    → Takes bg c w ws
    → (u : Uart) × (ble_cmd bg (w ∷ ws) c m
        ≡ (record m { commands = c ∷ m.commands; uart = u }, ok tt))
      × SamePorts m.uart.mcu u.mcu
unfolding ble_cmd ble_send_packet after_tx
ble_cmd-sent bg c w ws m takes =
    let (rest, u, e, same) =
      uart_tx-sent (length (bg.data1 c)) (bg.data1 c) (length (bg.data2 c) % 2 ^ 8) (bg.data2 c)
        uart_timeout w ws m.uart (omega arith) (omega arith) (omega (arith, takes.enough))
        takes.in_time in
    (u, rw e, same)
