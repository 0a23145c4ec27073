-- ===== src/Lock/Handlers/Session.antt =====
-- No message begins a session: the handlers reach `REQUEST` only from `REQUEST_W`, and never
-- `REQUEST_W`.
use esloq.Base.{
  Stop, out_of_bounds, Option-cases, copy_into, ◌+◌, ◌%◌, ℕ, ◌≡◌, refl, sym, ◌∙◌, ap, List, Bool,
  true, false, Outcome, ok, halted, Option, none, some, ◌==◌, slice, Bool-cases, inl, inr, bit_and,
}
use esloq.Uart.{Window}
use esloq.Lock.State.{
  State, Machine, BgLib, Message, rsp_system_address_get, rsp_gap_set_adv_parameters,
  rsp_gap_set_adv_data, rsp_gap_set_mode, rsp_attributes_write, evt_system_boot,
  evt_connection_status, evt_connection_disconnected, evt_hardware_io_port_status,
  evt_attributes_value, stub, lock_receive, attributes_write, lock_transmit,
}
use esloq.Lock.Monad.{M, ◌>>◌, modify, modify-eq-ok}
use esloq.Lock.Respond.{write_section}
use esloq.Lock.Respond.Keeps.{ble_cmd-Keeps}
use esloq.Lock.Handlers.{
  stub_handler, handle, ble_rsp_system_address_get, ble_rsp_gap_set_adv_data,
  ble_rsp_attributes_write, ble_evt_connection_status, ble_evt_attributes_value, after_value,
  after_adv_data, next_section,
}

-- The states in which a ticket has been accepted.
abbrev pub in_session : State → Bool
in_session State.request_w = true
in_session State.request = true
in_session _ = false

write_section-state :
    (bg : BgLib) (ws : List Window) (off len : ℕ) (m : Machine)
    → (write_section bg ws off len m).0.state ≡ m.state
unfolding write_section
write_section-state bg ws off len m = by_section (slice m.att_write_buffer.bytes off len) refl
  where
    by_section :
        (o : Option (List ℕ))
        → slice m.att_write_buffer.bytes off len ≡ o
        → (write_section bg ws off len m).0.state ≡ m.state
    by_section none e = rw e
    by_section (some section) e =
        rw e (ble_cmd-Keeps bg ws (attributes_write lock_transmit 0 len section) m).state

pub after_adv_data-session : (s : State) → in_session (after_adv_data s) ≡ in_session s
unfolding after_adv_data
after_adv_data-session State.adv_data_set_w = refl
after_adv_data-session State.adv_sr_data_set_w = refl
after_adv_data-session s = refl

pub after_value-session :
    (s : State) (len : ℕ) → in_session (after_value s len) ≡ true → in_session s ≡ true
unfolding after_value
after_value-session State.request_w len h = refl
after_value-session State.request len h = refl
after_value-session State.connected len h = elim (Bool-cases (len == 72)) [
  | inl full ↦ absurd_session State.ticket refl (rw full at h)
  | inr part ↦ absurd_session State.connected refl (rw part at h)
]
  where
    absurd_session :
        (s : State) → in_session s ≡ false → in_session s ≡ true → in_session State.connected ≡ true
    absurd_session s e e' = cc
after_value-session s len h = h

-- A chain that assigns a state outside the session does not end in the session.
sets_no_session :
    (x : M (Unit {0})) (f : Machine → Machine) (m m' : Machine)
    → in_session (f (x m).0).state ≡ false
    → (x >> modify f) m ≡ (m', ok tt)
    → in_session m'.state ≡ false
sets_no_session x f m m' e h =
    ap (λ (s : Machine). in_session s.state) (modify-eq-ok x f m m' h) ∙ e

same_state :
    (m m' : Machine) (o : Outcome (Unit {0}))
    → ◌≡◌ {A = Machine × Outcome (Unit {0})} (m, o) (m', ok tt)
    → in_session m'.state ≡ true
    → in_session m.state ≡ true
same_state m m' o h e = ap (λ (r : Machine × Outcome (Unit {0})). in_session r.0.state) h ∙ e

not_set :
    (s : State) (m m' : Machine) {B : Type 0}
    → in_session s ≡ false
    → ◌≡◌ {A = Machine × Outcome (Unit {0})} (record m { state = s }, ok tt) (m', ok tt)
    → in_session m'.state ≡ true
    → B
not_set s m m' out h e =
    let in_ : in_session s ≡ true =
      ap (λ (r : Machine × Outcome (Unit {0})). in_session r.0.state) h ∙ e in
    cc

section_kept :
    (bg : BgLib) (ws : List Window) (off len : ℕ) (m m' : Machine)
    → (write_section bg ws off len >> modify next_section) m ≡ (m', ok tt)
    → m'.state ≡ m.state
section_kept bg ws off len m m' h =
    ap (λ (s : Machine). s.state) (modify-eq-ok (write_section bg ws off len) next_section m m' h)
    ∙ write_section-state bg ws off len m

ack-state :
    (bg : BgLib) (ws : List Window) (result : ℕ) (m m' : Machine)
    → ble_rsp_attributes_write bg ws result m ≡ (m', ok tt)
    → m'.state ≡ m.state
unfolding ble_rsp_attributes_write
ack-state bg ws result m m' h = elim (Bool-cases (result == 0)) [
  | inr failed ↦ ap (λ (r : Machine × Outcome (Unit {0})). r.0.state) (sym (rw failed at h))
  | inl good ↦ elim (Bool-cases (m.att_write_buffer.section_sent == 0)) [
    | inl first ↦ section_kept bg ws 20 20 m m' (rw (good, first) at h)
    | inr later ↦ elim (Bool-cases (m.att_write_buffer.section_sent == 1)) [
      | inl second ↦ section_kept bg ws 40 1 m m' (rw (good, later, second) at h)
      | inr none_left ↦
          ap (λ (r : Machine × Outcome (Unit {0})). r.0.state)
            (sym (rw (good, later, none_left) at h))
    ]
  ]
]

stops :
    (m m' : Machine) (s : Stop) {B : Type 0}
    → ◌≡◌ {A = Machine × Outcome (Unit {0})} (m, halted s) (m', ok tt)
    → B
stops m m' s h =
    let stopped : halted s ≡ ok tt = ap (λ (r : Machine × Outcome (Unit {0})). r.1) h in cc

value-session :
    (handle len : ℕ) (value : List ℕ) (m m' : Machine)
    → ble_evt_attributes_value handle len value m ≡ (m', ok tt)
    → in_session m'.state ≡ true
    → in_session m.state ≡ true
unfolding ble_evt_attributes_value
value-session handle len value m m' h e = elim (Bool-cases (handle == lock_receive)) [
  | inr other ↦ same_state m m' (ok tt) (rw other at h) e
  | inl ours ↦ elim (Option-cases (slice value 0 len)) [
    | inl none_there ↦ stops m m' out_of_bounds (rw (ours, none_there) at h)
    | inr (bytes, there) ↦ elim (Option-cases (copy_into m.msg_buf.bytes m.msg_buf.len bytes)) [
      | inl no_room ↦ stops m m' out_of_bounds (rw (ours, there, no_room) at h)
      | inr (filled, room) ↦ after_value-session m.state ((m.msg_buf.len + len) % 256) (
          ap (λ (r : Machine × Outcome (Unit {0})). in_session r.0.state)
            (rw (ours, there, room) at h)
          ∙ e)
    ]
  ]
]

connection-session :
    (flags : ℕ) (m m' : Machine)
    → ble_evt_connection_status flags m ≡ (m', ok tt)
    → in_session m'.state ≡ true
    → in_session m.state ≡ true
unfolding ble_evt_connection_status
connection-session flags m m' h e = elim (Bool-cases (bit_and flags 5 == 0)) [
  | inl none_set ↦ same_state m m' (ok tt) (rw none_set at h) e
  | inr connected ↦ not_set State.connected m m' refl (rw connected at h) e
]

-- Whatever message a handler is given, a session goes on after it only if there was one before.
pub handle-session :
    (bg : BgLib) (ws : List Window) (message : Message) (m m' : Machine)
    → handle bg ws message m ≡ (m', ok tt)
    → in_session m'.state ≡ true
    → in_session m.state ≡ true
unfolding stub_handler handle ble_rsp_gap_set_adv_data ble_rsp_system_address_get
handle-session bg ws (rsp_system_address_get addr) m m' h e = elim (Option-cases (slice addr 0 6)) [
  | inl none_there ↦ stops _ m' out_of_bounds (rw none_there at h)
  | inr (six, there) ↦
      let in_ : false ≡ true =
        ap (λ (r : Machine × Outcome (Unit {0})). in_session r.0.state) (rw there at h) ∙ e in
      cc
]
handle-session bg ws (rsp_gap_set_adv_parameters result) m m' h e =
    not_set State.adv_param_set m m' refl h e
handle-session bg ws (rsp_gap_set_adv_data result) m m' h e =
    sym (after_adv_data-session m.state)
    ∙ ap (λ (r : Machine × Outcome (Unit {0})). in_session r.0.state) h
    ∙ e
handle-session bg ws (rsp_gap_set_mode result) m m' h e = not_set State.advertising m m' refl h e
handle-session bg ws (rsp_attributes_write result) m m' h e =
    ap in_session (sym (ack-state bg ws result m m' h)) ∙ e
handle-session bg ws evt_system_boot m m' h e = not_set State.ble_boot m m' refl h e
handle-session bg ws (evt_connection_status flags) m m' h e = connection-session flags m m' h e
handle-session bg ws evt_connection_disconnected m m' h e = not_set State.disconnected m m' refl h e
handle-session bg ws evt_hardware_io_port_status m m' h e = same_state m m' (ok tt) h e
handle-session bg ws (evt_attributes_value attribute len value) m m' h e =
    value-session attribute len value m m' h e
handle-session bg ws (stub message) m m' h e = same_state m m' (ok tt) h e
