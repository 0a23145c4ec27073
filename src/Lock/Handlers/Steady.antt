-- ===== src/Lock/Handlers/Steady.antt =====
-- The handlers keep what `Steady` says, for messages whose values are bytes.
use esloq.Base.{
  ℕ, ◌+◌, ◌%◌, ◌≡◌, sym, ◌∙◌, subst, List, some, in_bounds, slice, copy_into, slice-some,
  copy_into-some, length-copy_into, length, arith, take, ◌==◌, bit_and, Bool-cases, inl, inr,
  length-take,
}
use esloq.Nonce.Order.{AllBytes}
use esloq.Uart.{Window}
use esloq.Lock.State.{
  State, Machine, BgLib, Message, rsp_system_address_get, rsp_gap_set_adv_parameters,
  rsp_gap_set_adv_data, rsp_gap_set_mode, rsp_attributes_write, evt_system_boot,
  evt_connection_status, evt_connection_disconnected, evt_hardware_io_port_status,
  evt_attributes_value, stub, lock_receive,
}
use esloq.Lock.Monad.{◌>>◌, lift, modify}
use esloq.Lock.Respond.{write_section}
use esloq.Lock.Respond.Steady.{write_section-Steady, set_section-Steady}
use esloq.Lock.Steady.{
  Advances, Advances-refl, Steady-in_bounds, Steady-get, Steady, Steady-bind, Steady-pure,
  Steady-lift, Steady-if, Steady-modify, free_change, buffers_change,
}
use esloq.Lock.WellFormed.{IsWellFormed, AllBytes-take, AllBytes-drop, AllBytes-append}
use esloq.Lock.Handlers.{
  set_state, ble_rsp_system_address_get, after_adv_data, ble_rsp_gap_set_adv_data, next_section,
  ble_rsp_attributes_write, ble_evt_connection_status, ble_evt_attributes_value, after_value,
  handle,
}

-- The values in a message are of type `uint8_t`.
abbrev pub HoldsBytes : Message → Type 0
HoldsBytes (evt_attributes_value attribute len value) = AllBytes value
HoldsBytes message = Unit {0}

pub set_state-Steady : (s : State) → Steady (set_state s)
set_state-Steady s = Steady-modify _ (λ m wf.
    free_change m s m.request m.system_address m.uart m.commands m.att_write_buffer.section_sent wf)

address-Steady : (addr : List ℕ) → Steady (ble_rsp_system_address_get addr)
unfolding ble_rsp_system_address_get
address-Steady addr =
    Steady-bind (set_state State.system_address_get) _ (set_state-Steady State.system_address_get)
      (λ _.
        Steady-bind (lift (in_bounds (slice addr 0 6))) _ (Steady-lift (in_bounds (slice addr 0 6)))
          (λ six. Steady-modify _ (λ m wf.
            free_change m m.state m.request six m.uart m.commands m.att_write_buffer.section_sent
              wf)))

adv_data-Steady : Steady ble_rsp_gap_set_adv_data
unfolding ble_rsp_gap_set_adv_data
adv_data-Steady = Steady-modify _ (λ m wf.
    free_change m (after_adv_data m.state) m.request m.system_address m.uart m.commands
      m.att_write_buffer.section_sent wf)

section-Steady :
    (bg : BgLib) (ws : List Window) (off len : ℕ)
    → Steady (write_section bg ws off len >> modify next_section)
section-Steady bg ws off len =
    Steady-bind (write_section bg ws off len) _ (write_section-Steady bg ws off len)
      (λ _. set_section-Steady (λ n. (n + 1) % 256))

ack-Steady :
    (bg : BgLib) (ws : List Window) (result : ℕ) → Steady (ble_rsp_attributes_write bg ws result)
unfolding ble_rsp_attributes_write
ack-Steady bg ws result = record { at = λ m wf. by_count m wf }
  where
    by_count :
        (m : Machine) → IsWellFormed m → Advances m (ble_rsp_attributes_write bg ws result m).0
    by_count m wf = elim (Bool-cases (result == 0)) [
      | inr failed ↦ rw (failed, ble_rsp_attributes_write) (Advances-refl wf)
      | inl good ↦ elim (Bool-cases (m.att_write_buffer.section_sent == 0)) [
        | inl first ↦
            rw (good, first, ble_rsp_attributes_write) ((section-Steady bg ws 20 20).at m wf)
        | inr later ↦ elim (Bool-cases (m.att_write_buffer.section_sent == 1)) [
          | inl second ↦
              rw (good, later, second, ble_rsp_attributes_write)
                ((section-Steady bg ws 40 1).at m wf)
          | inr none_left ↦ rw (good, later, none_left, ble_rsp_attributes_write) (Advances-refl wf)
        ]
      ]
    ]

status-Steady : (flags : ℕ) → Steady (ble_evt_connection_status flags)
unfolding ble_evt_connection_status
status-Steady flags =
    Steady-if (bit_and flags 5 == 0) _ _ (Steady-pure tt) (set_state-Steady State.connected)

-- A copy into the message buffer that fits leaves 72 bytes there.
filled-Steady :
    (m : Machine) (after : State → State) (n : ℕ) (bytes filled : List ℕ)
    → IsWellFormed m
    → AllBytes bytes
    → length bytes ≡ n
    → copy_into m.msg_buf.bytes m.msg_buf.len bytes ≡ some filled
    → Steady (
        modify (λ s. record s {
          msg_buf = record { len = (m.msg_buf.len + n) % 256; bytes = filled };
          state = after s.state;
        }))
filled-Steady m after n bytes filled wf small n_bytes e =
    let (fits, eq) = copy_into-some m.msg_buf.bytes m.msg_buf.len bytes e in
    Steady-modify _ (λ s wf'.
      buffers_change s (after s.state) ((m.msg_buf.len + n) % 256) filled s.session_nonce
        s.session_key s.att_write_buffer.bytes wf' (omega (arith, fits, n_bytes, wf.msg_room))
        (length-copy_into m.msg_buf.bytes m.msg_buf.len bytes e ∙ wf.msg_room)
        (subst AllBytes (sym eq) (
          AllBytes-append (take m.msg_buf.len m.msg_buf.bytes) _
            (AllBytes-take m.msg_buf.len m.msg_buf.bytes wf.msg_bytes)
            (AllBytes-append bytes _ small
              (AllBytes-drop (m.msg_buf.len + length bytes) m.msg_buf.bytes wf.msg_bytes))))
        wf'.nonce_room wf'.nonce_bytes wf'.key_room wf'.att_room)

pub value-Steady :
    (attribute len : ℕ) (value : List ℕ)
    → AllBytes value
    → Steady (ble_evt_attributes_value attribute len value)
unfolding ble_evt_attributes_value
value-Steady attribute len value small = record { at = λ m wf. by_attribute m wf }
  where
    by_attribute :
        (m : Machine)
        → IsWellFormed m
        → Advances m (ble_evt_attributes_value attribute len value m).0
    by_attribute m wf = elim (Bool-cases (attribute == lock_receive)) [
      | inr other ↦ rw (other, ble_evt_attributes_value) (Advances-refl wf)
      | inl here ↦
          rw (here, ble_evt_attributes_value)
            ((Steady-in_bounds (slice value 0 len) _ (λ bytes read. Steady-get _ (λ s wf'.
                Steady-in_bounds (copy_into s.msg_buf.bytes s.msg_buf.len bytes) _ (λ filled copied.
                  let (fits, eq) = slice-some value 0 len read in
                  filled-Steady s (λ st. after_value st ((s.msg_buf.len + len) % 256)) len bytes
                    filled wf' (subst AllBytes (sym eq) (AllBytes-take len value small))
                    (rw eq (omega (arith, length-take len value, fits))) copied)))).at
              m wf)
    ]

pub handle-Steady :
    (bg : BgLib) (ws : List Window) (message : Message)
    → HoldsBytes message
    → Steady (handle bg ws message)
unfolding handle
handle-Steady bg ws (rsp_system_address_get addr) h = address-Steady addr
handle-Steady bg ws (rsp_gap_set_adv_parameters result) h = set_state-Steady State.adv_param_set
handle-Steady bg ws (rsp_gap_set_adv_data result) h = adv_data-Steady
handle-Steady bg ws (rsp_gap_set_mode result) h = set_state-Steady State.advertising
handle-Steady bg ws (rsp_attributes_write result) h = ack-Steady bg ws result
handle-Steady bg ws evt_system_boot h = set_state-Steady State.ble_boot
handle-Steady bg ws (evt_connection_status flags) h = status-Steady flags
handle-Steady bg ws evt_connection_disconnected h = set_state-Steady State.disconnected
handle-Steady bg ws evt_hardware_io_port_status h = Steady-pure tt
handle-Steady bg ws (evt_attributes_value attribute len value) h =
    value-Steady attribute len value h
handle-Steady bg ws (stub message) h = Steady-pure tt
