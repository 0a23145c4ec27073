-- ===== src/Lock/Handlers/Acks.antt =====
-- The two acknowledgements of the Bluetooth module on which `ble_rsp_attributes_write` sends the rest
-- of a response, where the module takes what is sent in time.
use esloq.Base.{
  ℕ, ◌+◌, ◌%◌, ◌≤◌, ◌≡◌, ◌∙◌, ap, List, ◌∷◌, ok, take, drop, length, length-take, length-drop,
  arith,
}
use esloq.Mcu.{SamePorts, SamePorts-trans}
use esloq.Uart.{Uart, Window}
use esloq.Lock.State.{Machine, BgLib, attributes_write, lock_transmit}
use esloq.Lock.Monad.{M, ◌>>◌, modify, >>=-ok}
use esloq.Lock.Send.Delivery.{Takes, ble_cmd-sent}
use esloq.Lock.Respond.{write_section}
use esloq.Lock.Respond.Delivery.{TakesSections}
use esloq.Lock.Respond.Keeps.{write_section_lem}
use esloq.Lock.Handlers.{next_section, ble_rsp_attributes_write}
use esloq.Lock.Handlers.Writes.{section_write, ack_lem}

-- The windows of the UART for the second section and for the third.
pub record Acks : Type 0 where
  pub second : Window
  pub seconds : List Window
  pub third : Window
  pub thirds : List Window

-- The module takes both sections, of 20 bytes and of one, in time.
pub record TakesRest (bg : BgLib) (acks : Acks) : Type 0 where
  pub takes_second : TakesSections bg acks.second acks.seconds
  pub takes_third :
      (section : List ℕ)
      → length section ≡ 1
      → Takes bg (attributes_write lock_transmit 0 1 section) acks.third acks.thirds

-- The module acknowledges the first write and the second.
abbrev pub acknowledge : BgLib → Acks → M (Unit {0})
acknowledge bg acks =
    ble_rsp_attributes_write bg (acks.second ∷ acks.seconds) 0
    >> ble_rsp_attributes_write bg (acks.third ∷ acks.thirds) 0

section-sent :
    (bg : BgLib) (w : Window) (ws : List Window) (off len : ℕ) (m : Machine)
    → off + len ≤ length m.att_write_buffer.bytes
    → Takes bg (section_write m.att_write_buffer.bytes off len) w ws
    → (u : Uart) × ((write_section bg (w ∷ ws) off len >> modify next_section) m ≡ (
      next_section (record m {
        commands = section_write m.att_write_buffer.bytes off len ∷ m.commands;
        uart = u;
      }),
      ok tt,
    ))
      × SamePorts m.uart.mcu u.mcu
section-sent bg w ws off len m fits takes =
    let (u, e, same) =
      ble_cmd-sent bg (section_write m.att_write_buffer.bytes off len) w ws m takes in
    (
      u,
      >>=-ok (write_section bg (w ∷ ws) off len) (λ _. modify next_section)
          (write_section_lem bg (w ∷ ws) off len m fits ∙ e),
      same,
    )

-- `m` once the rest of the response in its buffer has been sent.
abbrev pub acknowledged : Machine → Uart → Machine
acknowledged m u = record m {
  att_write_buffer = record {
    section_sent = ((m.att_write_buffer.section_sent + 1) % 256 + 1) % 256;
    bytes = m.att_write_buffer.bytes;
  };
  commands =
      section_write m.att_write_buffer.bytes 40 1
      ∷ section_write m.att_write_buffer.bytes 20 20
      ∷ m.commands;
  uart = u;
}

-- After the first section of a response of 41 bytes, the two acknowledgements send the other two, and
-- nothing but the count, the commands and the UART changes.
pub acknowledge-sent :
    (bg : BgLib) (acks : Acks) (m : Machine)
    → TakesRest bg acks
    → m.att_write_buffer.section_sent ≡ 0
    → length m.att_write_buffer.bytes ≡ 41
    → (u : Uart) × (acknowledge bg acks m ≡ (acknowledged m u, ok tt)) × SamePorts m.uart.mcu u.mcu
acknowledge-sent bg acks m takes none_yet full =
    let rsp = m.att_write_buffer.bytes in
    let (u2, e2, same2) = section-sent bg acks.second acks.seconds 20 20 m (omega (arith, full)) (
      takes.takes_second (take 20 (drop 20 rsp))
        (omega (arith, full, length-take 20 (drop 20 rsp), length-drop 20 rsp))) in
    let m2 =
      next_section (record m { commands = section_write rsp 20 20 ∷ m.commands; uart = u2 }) in
    let (u3, e3, same3) = section-sent bg acks.third acks.thirds 40 1 m2 (omega (arith, full)) (
      takes.takes_third (take 1 (drop 40 rsp))
        (omega (arith, full, length-take 1 (drop 40 rsp), length-drop 40 rsp))) in
    (
      u3,
      >>=-ok (ble_rsp_attributes_write bg (acks.second ∷ acks.seconds) 0)
            (λ _. ble_rsp_attributes_write bg (acks.third ∷ acks.thirds) 0)
            (ack_lem bg (acks.second ∷ acks.seconds) m 0 none_yet ∙ e2)
          ∙ ack_lem bg (acks.third ∷ acks.thirds) m2 1 (ap (λ n. (n + 1) % 256) none_yet)
          ∙ e3,
      SamePorts-trans m.uart.mcu u2.mcu u3.mcu same2 same3,
    )
