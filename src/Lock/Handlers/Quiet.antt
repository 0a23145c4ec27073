-- ===== src/Lock/Handlers/Quiet.antt =====
-- The handlers are quiet.
use esloq.Base.{
  ℕ, ◌+◌, ◌%◌, refl, sym, ◌∙◌, List, in_bounds, slice, copy_into, ◌==◌, bit_and, Bool-cases, inl,
  inr,
}
use esloq.Uart.{Window}
use esloq.Lock.State.{
  State, Machine, BgLib, Message, rsp_system_address_get, rsp_gap_set_adv_parameters,
  rsp_gap_set_adv_data, rsp_gap_set_mode, rsp_attributes_write, evt_system_boot,
  evt_connection_status, evt_connection_disconnected, evt_hardware_io_port_status,
  evt_attributes_value, stub, lock_receive,
}
use esloq.Lock.Monad.{◌>>◌, lift, modify}
use esloq.Lock.Respond.{write_section}
use esloq.Lock.Handlers.{
  stub_handler, set_state, ble_rsp_system_address_get, after_adv_data, ble_rsp_gap_set_adv_data,
  next_section, ble_rsp_attributes_write, ble_evt_connection_status, ble_evt_attributes_value,
  after_value, handle,
}
use esloq.Lock.Handlers.Session.{after_adv_data-session, after_value-session}
use esloq.Lock.Quiet.Parts.{set_state-Quiet, write_section-Quiet}
use esloq.Lock.Quiet.{
  Quietly, Quietly-refl, Quiet, Quiet-pure, Quiet-lift, Quiet-if, Quiet-modify, Quiet-get,
  Quiet-bind, Quietly-free,
}

address-Quiet : (addr : List ℕ) → Quiet (ble_rsp_system_address_get addr)
unfolding ble_rsp_system_address_get
address-Quiet addr =
    Quiet-bind (set_state State.system_address_get) _
      (set_state-Quiet State.system_address_get refl)
      (λ _.
        Quiet-bind (lift (in_bounds (slice addr 0 6))) _ (Quiet-lift (in_bounds (slice addr 0 6)))
          (λ six. Quiet-modify _ (λ m.
            Quietly-free m m.state m.msg_buf m.request six m.uart m.commands m.att_write_buffer
              (λ h. h))))

adv_data-Quiet : Quiet ble_rsp_gap_set_adv_data
unfolding ble_rsp_gap_set_adv_data
adv_data-Quiet = Quiet-modify _ (λ m.
    Quietly-free m (after_adv_data m.state) m.msg_buf m.request m.system_address m.uart m.commands
      m.att_write_buffer (λ h. sym (after_adv_data-session m.state) ∙ h))

section-Quiet :
    (bg : BgLib) (ws : List Window) (off len : ℕ)
    → Quiet (write_section bg ws off len >> modify next_section)
section-Quiet bg ws off len =
    Quiet-bind (write_section bg ws off len) _ (write_section-Quiet bg ws off len) (λ _.
      Quiet-modify _ (λ m.
        Quietly-free m m.state m.msg_buf m.request m.system_address m.uart m.commands
          (record {
            section_sent = (m.att_write_buffer.section_sent + 1) % 256;
            bytes = m.att_write_buffer.bytes;
          })
          (λ h. h)))

ack-Quiet :
    (bg : BgLib) (ws : List Window) (result : ℕ) → Quiet (ble_rsp_attributes_write bg ws result)
unfolding ble_rsp_attributes_write
ack-Quiet bg ws result = record { at = by_count }
  where
    by_count : (m : Machine) → Quietly m (ble_rsp_attributes_write bg ws result m).0
    by_count m = elim (Bool-cases (result == 0)) [
      | inr failed ↦ rw (failed, ble_rsp_attributes_write) Quietly-refl
      | inl good ↦ elim (Bool-cases (m.att_write_buffer.section_sent == 0)) [
        | inl first ↦ rw (good, first, ble_rsp_attributes_write) ((section-Quiet bg ws 20 20).at m)
        | inr later ↦ elim (Bool-cases (m.att_write_buffer.section_sent == 1)) [
          | inl second ↦
              rw (good, later, second, ble_rsp_attributes_write) ((section-Quiet bg ws 40 1).at m)
          | inr none_left ↦ rw (good, later, none_left, ble_rsp_attributes_write) Quietly-refl
        ]
      ]
    ]

status-Quiet : (flags : ℕ) → Quiet (ble_evt_connection_status flags)
unfolding ble_evt_connection_status
status-Quiet flags =
    Quiet-if (bit_and flags 5 == 0) _ _ (Quiet-pure tt) (set_state-Quiet State.connected refl)

value-Quiet :
    (attribute len : ℕ) (value : List ℕ) → Quiet (ble_evt_attributes_value attribute len value)
unfolding ble_evt_attributes_value
value-Quiet attribute len value = record { at = by_attribute }
  where
    by_attribute : (m : Machine) → Quietly m (ble_evt_attributes_value attribute len value m).0
    by_attribute m = elim (Bool-cases (attribute == lock_receive)) [
      | inr other ↦ rw (other, ble_evt_attributes_value) Quietly-refl
      | inl here ↦
          rw (here, ble_evt_attributes_value)
            ((Quiet-bind (lift (in_bounds (slice value 0 len))) _
                (Quiet-lift (in_bounds (slice value 0 len)))
                (λ bytes. Quiet-get _ (λ s.
                  Quiet-bind (lift (in_bounds (copy_into s.msg_buf.bytes s.msg_buf.len bytes))) _
                    (Quiet-lift (in_bounds (copy_into s.msg_buf.bytes s.msg_buf.len bytes)))
                    (λ filled. Quiet-modify _ (λ s'.
                      let len' = (s.msg_buf.len + len) % 256 in
                      Quietly-free s' (after_value s'.state len')
                        (record { len = len'; bytes = filled }) s'.request s'.system_address s'.uart
                        s'.commands s'.att_write_buffer
                        (λ h. after_value-session s'.state len' h)))))).at
              m)
    ]

-- Whatever message a handler is given.
pub handle-Quiet :
    (bg : BgLib) (ws : List Window) (message : Message) → Quiet (handle bg ws message)
unfolding handle stub_handler
handle-Quiet bg ws (rsp_system_address_get addr) = address-Quiet addr
handle-Quiet bg ws (rsp_gap_set_adv_parameters result) = set_state-Quiet State.adv_param_set refl
handle-Quiet bg ws (rsp_gap_set_adv_data result) = adv_data-Quiet
handle-Quiet bg ws (rsp_gap_set_mode result) = set_state-Quiet State.advertising refl
handle-Quiet bg ws (rsp_attributes_write result) = ack-Quiet bg ws result
handle-Quiet bg ws evt_system_boot = set_state-Quiet State.ble_boot refl
handle-Quiet bg ws (evt_connection_status flags) = status-Quiet flags
handle-Quiet bg ws evt_connection_disconnected = set_state-Quiet State.disconnected refl
handle-Quiet bg ws evt_hardware_io_port_status = Quiet-pure tt
handle-Quiet bg ws (evt_attributes_value attribute len value) = value-Quiet attribute len value
handle-Quiet bg ws (stub message) = Quiet-pure tt
