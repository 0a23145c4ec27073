-- ===== src/Lock/Respond/Delivery.antt =====
-- The first part of a response is sent where the module takes it in time.
use esloq.Base.{ℕ, ◌≡◌, List, ◌∷◌, ok, take, slice_lem, length, length-take, arith}
use esloq.Mcu.{SamePorts}
use esloq.Uart.{Uart, Window}
use esloq.Lock.State.{Machine, BgLib, attributes_write, lock_transmit}
use esloq.Lock.Monad.{◌>>◌, modify, pure, >>=-ok}
use esloq.Lock.Send.Delivery.{Takes, ble_cmd-sent}
use esloq.Lock.Respond.{write_section, send_response}

-- The module takes any command that writes 20 bytes to the attribute of the responses.
abbrev pub TakesSections : BgLib → Window → List Window → Type 0
TakesSections bg w ws =
    (section : List ℕ)
    → length section ≡ 20
    → Takes bg (attributes_write lock_transmit 0 20 section) w ws

pub send_response-sent :
    (bg : BgLib) (w : Window) (ws : List Window) (rsp : List ℕ) (m : Machine)
    → TakesSections bg w ws
    → length rsp ≡ 41
    → (u : Uart) × ((send_response bg (w ∷ ws) rsp >> pure {A = ℕ} 0) m ≡ (
      record m {
        att_write_buffer = record { section_sent = 0; bytes = rsp };
        commands = attributes_write lock_transmit 0 20 (take 20 rsp) ∷ m.commands;
        uart = u;
      },
      ok 0,
    ))
      × SamePorts m.uart.mcu u.mcu
unfolding send_response write_section
send_response-sent bg w ws rsp m takes full =
    let buffered = record m {
      att_write_buffer = record { section_sent = m.att_write_buffer.section_sent; bytes = rsp };
    } in
    let (u, e, same) =
      ble_cmd-sent bg (attributes_write lock_transmit 0 20 (take 20 rsp)) w ws buffered
        (takes (take 20 rsp) (omega (arith, length-take 20 rsp))) in
    let written : write_section bg (w ∷ ws) 0 20 buffered ≡ (
      record buffered {
        commands = attributes_write lock_transmit 0 20 (take 20 rsp) ∷ m.commands;
        uart = u;
      },
      ok tt,
    ) =
      rw (slice_lem rsp 0 20 (omega arith), write_section) e in
    (
      u,
      >>=-ok (send_response bg (w ∷ ws) rsp) (λ _. pure {A = ℕ} 0) {m = m}
          (>>=-ok (write_section bg (w ∷ ws) 0 20)
            (λ _. modify (λ s. record s {
              att_write_buffer = record { section_sent = 0; bytes = s.att_write_buffer.bytes };
            }))
            written),
      same,
    )
