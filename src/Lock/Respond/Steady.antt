-- ===== src/Lock/Respond/Steady.antt =====
-- Sending commands and responses keeps what `Steady` says.
use esloq.Base.{ℕ, ◌≡◌, sym, subst, List, in_bounds, slice, length, arith}
use esloq.Uart.{Window}
use esloq.Lock.State.{Machine, Command, BgLib, State, attributes_write, lock_transmit}
use esloq.Lock.Monad.{lift, modify}
use esloq.Lock.Send.{ble_cmd}
use esloq.Lock.Send.Frame.{ble_cmd_frame}
use esloq.Lock.Respond.{write_section, send_response, reset_msg_buffer}
use esloq.Lock.Steady.{
  Advances, Advances-bind, Steady, Steady-bind, Steady-lift, Steady-modify, free_change,
  buffers_change,
}
use esloq.Lock.WellFormed.{IsWellFormed}

pub ble_cmd-Steady : (bg : BgLib) (ws : List Window) (c : Command) → Steady (ble_cmd bg ws c)
ble_cmd-Steady bg ws c = record {
  at = λ m wf. subst (Advances m) (sym (ble_cmd_frame bg ws c m)) (
      free_change m m.state m.request m.system_address (ble_cmd bg ws c m).0.uart _
        m.att_write_buffer.section_sent wf);
}

pub write_section-Steady :
    (bg : BgLib) (ws : List Window) (off len : ℕ) → Steady (write_section bg ws off len)
unfolding write_section
write_section-Steady bg ws off len = record {
  at = λ m wf.
      Advances-bind (lift (in_bounds (slice m.att_write_buffer.bytes off len)))
        (λ section. ble_cmd bg ws (attributes_write lock_transmit 0 len section)) m m
        ((Steady-lift (in_bounds (slice m.att_write_buffer.bytes off len))).at m wf)
        (λ section. ble_cmd-Steady bg ws (attributes_write lock_transmit 0 len section));
}

pub set_section-Steady :
    (f : ℕ → ℕ)
    → Steady (
        modify (λ m. record m {
          att_write_buffer = record {
            section_sent = f m.att_write_buffer.section_sent;
            bytes = m.att_write_buffer.bytes;
          };
        }))
set_section-Steady f = Steady-modify _ (λ m wf.
    free_change m m.state m.request m.system_address m.uart m.commands
      (f m.att_write_buffer.section_sent) wf)

pub send_response-Steady :
    (bg : BgLib) (ws : List Window) (rsp : List ℕ)
    → length rsp ≡ 41
    → Steady (send_response bg ws rsp)
unfolding send_response
send_response-Steady bg ws rsp full =
    Steady-bind
      (modify (λ m. record m {
        att_write_buffer = record { section_sent = m.att_write_buffer.section_sent; bytes = rsp };
      }))
      _
      (Steady-modify _ (λ m wf.
        buffers_change m m.state m.msg_buf.len m.msg_buf.bytes m.session_nonce m.session_key rsp wf
          wf.msg_fits wf.msg_room wf.msg_bytes wf.nonce_room wf.nonce_bytes wf.key_room full))
      (λ _.
        Steady-bind (write_section bg ws 0 20) _ (write_section-Steady bg ws 0 20)
          (λ _. set_section-Steady (λ n. 0)))

pub reset_msg_buffer-Advances :
    (m : Machine) (s : State)
    → IsWellFormed m
    → Advances m (record (reset_msg_buffer m) { state = s })
unfolding reset_msg_buffer
reset_msg_buffer-Advances m s wf =
    buffers_change m s 0 m.msg_buf.bytes m.session_nonce m.session_key m.att_write_buffer.bytes wf
      (omega arith) wf.msg_room wf.msg_bytes wf.nonce_room wf.nonce_bytes wf.key_room wf.att_room

pub reset_msg_buffer-Steady : Steady (modify reset_msg_buffer)
unfolding reset_msg_buffer
reset_msg_buffer-Steady = Steady-modify _ (λ m wf. reset_msg_buffer-Advances m m.state wf)
