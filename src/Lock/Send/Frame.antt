-- ===== src/Lock/Send/Frame.antt =====
-- What sending a command leaves alone: all but the UART and the list of commands.
use esloq.Base.{◌%◌, ◌^◌, ◌≡◌, refl, List, ◌∷◌, Outcome, ok, halted, length}
use esloq.Uart.{Window, TxStatus, sent, timed_out, uart_tx, Uart}
use esloq.Lock.State.{Machine, Command, BgLib}
use esloq.Lock.Send.{after_tx, ble_send_packet, ble_cmd, uart_timeout}

after_tx_frame :
    (m : Machine) (o : Outcome (TxStatus × List Window × Uart))
    → (after_tx m o).0 ≡ record m { uart = (after_tx m o).0.uart }
unfolding after_tx
after_tx_frame m (halted s) = refl
after_tx_frame m (ok (sent, ws, u)) = refl
after_tx_frame m (ok (timed_out, ws, u)) = refl

-- Whatever comes of a command, it is noted first, and beside that only the UART changes.
pub ble_cmd_frame :
    (bg : BgLib) (ws : List Window) (c : Command) (m : Machine)
    → (ble_cmd bg ws c m).0
      ≡ record m { commands = c ∷ m.commands; uart = (ble_cmd bg ws c m).0.uart }
unfolding ble_cmd ble_send_packet
ble_cmd_frame bg ws c m =
    after_tx_frame (record m { commands = c ∷ m.commands })
      (uart_tx (length (bg.data1 c)) (bg.data1 c) (length (bg.data2 c) % 2 ^ 8) (bg.data2 c)
        uart_timeout ws m.uart)
