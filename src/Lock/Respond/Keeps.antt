-- ===== src/Lock/Respond/Keeps.antt =====
-- What a response leaves alone.
use esloq.Base.{
  Stop, ℕ, ◌≡◌, refl, sym, ◌∙◌, List, Outcome, ok, halted, inl, inr, subst, take, drop, length,
  arith, slice_lem, ◌≤◌, ◌+◌, ◌⊎◌,
}
use esloq.Uart.{Window}
use esloq.Lock.State.{Machine, Command, BgLib, attributes_write, lock_transmit}
use esloq.Lock.Monad.{M, modify, >>=-ok, >>=-halted}
use esloq.Lock.Send.{ble_cmd}
use esloq.Lock.Send.Frame.{ble_cmd_frame}
use esloq.Lock.Respond.{write_section, send_response}

-- The session, the stored secrets and the state are the same.
pub record Keeps (before after : Machine) : Type 0 where
  pub state : after.state ≡ before.state
  pub msg_buf : after.msg_buf ≡ before.msg_buf
  pub session_nonce : after.session_nonce ≡ before.session_nonce
  pub session_key : after.session_key ≡ before.session_key
  pub master_nonce : after.master_nonce_eeprom ≡ before.master_nonce_eeprom
  pub master_key : after.master_key_eeprom ≡ before.master_key_eeprom

abbrev pub unit_cases : (o : Outcome (Unit {0})) → (o ≡ ok tt) ⊎ ((s : Stop) × (o ≡ halted s))
unit_cases (ok _) = inl refl
unit_cases (halted s) = inr (s, refl)

-- A section that lies inside the buffer is given to BGLib, whether or not the sending succeeds.
pub write_section_lem :
    (bg : BgLib) (ws : List Window) (off len : ℕ) (m : Machine)
    → off + len ≤ length m.att_write_buffer.bytes
    → write_section bg ws off len m
      ≡ ble_cmd bg ws
          (attributes_write lock_transmit 0 len (take len (drop off m.att_write_buffer.bytes)))
          m
unfolding write_section
write_section_lem bg ws off len m fits = rw (slice_lem m.att_write_buffer.bytes off len fits)

pub ble_cmd-Keeps :
    (bg : BgLib) (ws : List Window) (c : Command) (m : Machine) → Keeps m (ble_cmd bg ws c m).0
ble_cmd-Keeps bg ws c m = subst (Keeps m) (sym (ble_cmd_frame bg ws c m)) (record {
  state = refl;
  msg_buf = refl;
  session_nonce = refl;
  session_key = refl;
  master_nonce = refl;
  master_key = refl;
})

module _ (bg : BgLib) (ws : List Window) (rsp : List ℕ) (m : Machine) (full : length rsp ≡ 41) where
  -- The machine with the response in its buffer.
  abbrev loaded : Machine
  loaded = record m {
    att_write_buffer = record { section_sent = m.att_write_buffer.section_sent; bytes = rsp };
  }

  abbrev first_write : Command
  first_write = attributes_write lock_transmit 0 20 (take 20 rsp)

  abbrev sent_first : Machine
  sent_first = (ble_cmd bg ws first_write loaded).0

  abbrev rewind : Unit {0} → M (Unit {0})
  rewind _ = modify (λ s. record s {
    att_write_buffer = record { section_sent = 0; bytes = s.att_write_buffer.bytes };
  })

  -- A response that is sent ends in the state that sending its first 20 bytes leaves, with the
  -- section count at 0.
  send_response-ok :
      (ble_cmd bg ws first_write loaded).1 ≡ ok tt
      → send_response bg ws rsp m ≡ (
        record sent_first {
          att_write_buffer = record { section_sent = 0; bytes = sent_first.att_write_buffer.bytes };
        },
        ok tt,
      )
  unfolding send_response
  send_response-ok e =
      (>>=-ok (write_section bg ws 0 20) rewind (
        write_section_lem bg ws 0 20 loaded (omega arith) ∙ λ i.
        ((ble_cmd bg ws first_write loaded).0, e i)))

  send_response-halted :
      (stop : Stop)
      → (ble_cmd bg ws first_write loaded).1 ≡ halted stop
      → send_response bg ws rsp m ≡ (sent_first, halted stop)
  unfolding send_response
  send_response-halted stop e =
      (>>=-halted (write_section bg ws 0 20) rewind (
        write_section_lem bg ws 0 20 loaded (omega arith) ∙ λ i.
        ((ble_cmd bg ws first_write loaded).0, e i)))

  pub send_response-Keeps : Keeps m (send_response bg ws rsp m).0
  send_response-Keeps = elim (unit_cases (ble_cmd bg ws first_write loaded).1) [
    | inl e ↦
        let k = ble_cmd-Keeps bg ws first_write loaded in
        rw (send_response-ok e) (record {
          state = k.state;
          msg_buf = k.msg_buf;
          session_nonce = k.session_nonce;
          session_key = k.session_key;
          master_nonce = k.master_nonce;
          master_key = k.master_key;
        })
    | inr (stop, e) ↦
        let k = ble_cmd-Keeps bg ws first_write loaded in
        rw (send_response-halted stop e) (record {
          state = k.state;
          msg_buf = k.msg_buf;
          session_nonce = k.session_nonce;
          session_key = k.session_key;
          master_nonce = k.master_nonce;
          master_key = k.master_key;
        })
  ]
