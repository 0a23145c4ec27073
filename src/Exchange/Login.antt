-- ===== src/Exchange/Login.antt =====
-- A ticket of the server, from its encryption to the answer that the phone opens.
use esloq.Base.{
  ℕ, ◌≤◌, ◌<◌, ◌≡◌, refl, sym, ◌∙◌, ap, subst, List, [], ◌∷◌, ◌++◌, length, take, drop, replicate,
  arith, ok, some, length-append, drop-append,
}
use esloq.Crypto.{SecretBox, IsSecretBox}
use esloq.Nonce.Order.{AllBytes, value}
use esloq.Mcu.{SamePorts}
use esloq.Uart.{Window}
use esloq.Wrappers.{auth_encrypt, jni_decrypt}
use esloq.Wrappers.Agree.{sealed, server_encrypt, opens, length-body}
use esloq.Lock.Board.{battery_monitor_alert}
use esloq.Lock.Fsm.{FsmInputs, fsm_process, dispatch, after_ticket}
use esloq.Lock.Handlers.Buffer.{receive_parts, joined, holding, attributes_value-ticket}
use esloq.Lock.Monad.{◌>>◌, >>=-ok}
use esloq.Lock.Respond.Delivery.{TakesSections, send_response-sent}
use esloq.Lock.State.{State, Machine, BgLib, attributes_write, lock_transmit}
use esloq.Lock.Ticket.{process_ticket_msg}
use esloq.Lock.Ticket.Branches.{
  opened_ticket, session_key_of, sealed_byte, ticket_code, first_nonce, ticket_taken,
  process_ticket_msg-accepted,
}
use esloq.Lock.Ticket.Replay.{length-sealed_byte}
use esloq.Lock.WellFormed.{IsWellFormed, nonce_of, box_of}
use esloq.Exchange.Message.{message_parts, nonce_first, opens_answer, received-IsWellFormed}

module _ (box : SecretBox) (doc : IsSecretBox box) (nonce key master_key c : List ℕ)
    (nonce24 : length nonce ≡ 24) (key32 : length key ≡ 32) (master32 : length master_key ≡ 32)
    (by_server : auth_encrypt box key nonce master_key ≡ ok (some c)) where
  body : c ≡ drop 16 (sealed box doc key nonce master_key (omega arith) nonce24 master32)
  body =
      let e : ok (some c)
          ≡ ok (
              some (drop 16 (sealed box doc key nonce master_key (omega arith) nonce24 master32))) =
        sym by_server
        ∙ server_encrypt box doc key nonce master_key (omega arith) nonce24 master32 in
      cc

  length-ticket_box : length c ≡ 48
  length-ticket_box =
      ap length body
      ∙ length-body box doc key nonce master_key (omega arith) nonce24 master32
      ∙ omega (arith, key32)

  -- The lock opens the ticket to the key that the server has put in it.
  opens_to_key :
      (m : Machine)
      → m.master_key_eeprom ≡ master_key
      → take 72 m.msg_buf.bytes ≡ nonce ++ c
      → (nonce_of m ≡ nonce) × (opened_ticket box m ≡ (0, replicate 32 0 ++ key))
  opens_to_key m same e =
      let (n_at, c_at) = message_parts m.msg_buf.bytes nonce c 72 nonce24 e in
      let c_at48 : box_of 48 m ≡ c = ap (λ k. box_of k m) (sym length-ticket_box) ∙ c_at in
      (
        n_at,
        (λ i. box.secretbox_open (replicate 16 0 ++ (c_at48 ∙ body) i) (n_at i) (same i))
            ∙ opens box doc key nonce master_key (omega arith) nonce24 master32,
      )

-- The lock after a ticket: it awaits requests under the key of the ticket, whose nonce is stored, and
-- the first 20 bytes of an answer are sent that the phone opens to `code`.
pub record LoggedIn (box : SecretBox) (before after : Machine) (nonce key : List ℕ) (code : ℕ)
    : Type 0 where
  pub awaits : after.state ≡ State.request_w
  pub empty : after.msg_buf.len ≡ 0
  pub session_key : after.session_key ≡ key
  pub session_nonce : after.session_nonce ≡ first_nonce
  pub master_nonce : after.master_nonce_eeprom ≡ nonce
  pub ports : SamePorts before.uart.mcu after.uart.mcu
  pub sends :
      after.commands
      ≡ attributes_write lock_transmit 0 20 (take 20 after.att_write_buffer.bytes) ∷ before.commands
  pub one_sent : after.att_write_buffer.section_sent ≡ 0
  pub full : length after.att_write_buffer.bytes ≡ 41
  pub under : take 24 after.att_write_buffer.bytes ≡ after.session_nonce
  pub answers :
      jni_decrypt box
        (drop 24 after.att_write_buffer.bytes)
        (take 24 after.att_write_buffer.bytes)
        key
      ≡ code ∷ []

module _ (box : SecretBox) (doc : IsSecretBox box) (bg : BgLib) (w : Window) (ws : List Window)
    (takes : TakesSections bg w ws) (inputs : FsmInputs) where
  abbrev sending : FsmInputs
  sending = record inputs { windows = w ∷ ws }

  -- A machine in the state TICKET with a fresh ticket in its buffer.
  processes :
      (nonce key : List ℕ) (m : Machine)
      → IsWellFormed m
      → m.state ≡ State.ticket
      → length key ≡ 32
      → nonce_of m ≡ nonce
      → opened_ticket box m ≡ (0, replicate 32 0 ++ key)
      → value m.master_nonce_eeprom < value nonce
      → (m' : Machine) × (fsm_process box bg sending m ≡ (m', ok tt))
        × LoggedIn box m m' nonce key (ticket_code (battery_monitor_alert inputs.acsr))
  unfolding fsm_process dispatch after_ticket
  processes nonce key m wf s key32 at_nonce opened fresh =
      let low = battery_monitor_alert inputs.acsr in
      let code = ticket_code low in
      let e_key : session_key_of box m ≡ key =
        ap (λ (r : ℕ × List ℕ). drop 32 r.1) opened ∙ drop-append (replicate 32 0) key in
      let rsp = sealed_byte box code first_nonce (session_key_of box m) in
      let taken = ticket_taken box doc bg (w ∷ ws) low m wf in
      let (u, sent, same) =
        send_response-sent bg w ws rsp taken takes
          (length-sealed_byte box doc code first_nonce (session_key_of box m) refl) in
      let accepted =
        process_ticket_msg-accepted box doc bg (w ∷ ws) low m wf
          (subst (λ n. value m.master_nonce_eeprom < value n) (sym at_nonce) fresh)
          (ap (λ (r : ℕ × List ℕ). r.0) opened) in
      (
        _,
        ap (λ st. dispatch box bg sending st m) s
            ∙ >>=-ok (process_ticket_msg box bg (w ∷ ws) low) after_ticket (accepted ∙ sent),
        record {
          awaits = refl;
          empty = refl;
          session_key = e_key;
          session_nonce = refl;
          master_nonce = at_nonce;
          ports = same;
          sends = refl;
          one_sent = refl;
          full = length-sealed_byte box doc code first_nonce (session_key_of box m) refl;
          under = nonce_first box code first_nonce (session_key_of box m) refl;
          answers =
              ap (λ k. jni_decrypt box (drop 24 rsp) (take 24 rsp) k) (sym e_key)
              ∙ opens_answer box doc code first_nonce (session_key_of box m) refl
                  (ap length e_key ∙ key32)
              ∙ refl;
        },
      )

  -- A ticket for a key of 32 bytes that the server seals under the master key, with a nonce of 24 bytes
  -- greater than the last one, is answered: delivered in whatever parts, the last of them not empty, to
  -- a well-formed, connected lock that holds no part of a message, it is processed by the next call of
  -- `fsm_process`, which returns where the module takes the first section of the response; the lock
  -- then awaits requests under the key of the ticket, and the phone opens the response with that key
  -- to the code of the battery.
  pub ticket-answered :
      (nonce key c : List ℕ) (parts : List (List ℕ)) (last : List ℕ) (m : Machine)
      → IsWellFormed m
      → m.state ≡ State.connected
      → m.msg_buf.len ≡ 0
      → length nonce ≡ 24
      → length key ≡ 32
      → auth_encrypt box key nonce m.master_key_eeprom ≡ ok (some c)
      → AllBytes (joined parts ++ last)
      → joined parts ++ last ≡ nonce ++ c
      → 1 ≤ length last
      → value m.master_nonce_eeprom < value nonce
      → (m' : Machine) × ((receive_parts (parts ++ (last ∷ [])) >> fsm_process box bg sending) m
          ≡ (m', ok tt))
        × LoggedIn box m m' nonce key (ticket_code (battery_monitor_alert inputs.acsr))
  ticket-answered nonce key c parts last m wf s empty nonce24 key32 by_server small whole some_last
        fresh =
      let c48 =
        length-ticket_box box doc nonce key m.master_key_eeprom c nonce24 key32 wf.master_key_room
          by_server in
      let (bytes, received, prefix, full) =
        attributes_value-ticket parts last m s empty wf.msg_room some_last (
          omega (
            arith,
            length-append (joined parts) last,
            ap length whole,
            length-append nonce c,
            c48,
            nonce24,
          )) in
      let e : take 72 bytes ≡ nonce ++ c = prefix ∙ whole in
      let m1 = holding m 72 bytes State.ticket in
      let wf1 = received-IsWellFormed parts last wf small received in
      let (at_nonce, opened) =
        opens_to_key box doc nonce key m.master_key_eeprom c nonce24 key32 wf.master_key_room
          by_server m1 refl e in
      let (m', done, logged_in) = processes nonce key m1 wf1 refl key32 at_nonce opened fresh in
      (
        m',
        >>=-ok (receive_parts (parts ++ (last ∷ []))) (λ _. fsm_process box bg sending) received
            ∙ done,
        record {
          awaits = logged_in.awaits;
          empty = logged_in.empty;
          session_key = logged_in.session_key;
          session_nonce = logged_in.session_nonce;
          master_nonce = logged_in.master_nonce;
          ports = logged_in.ports;
          sends = logged_in.sends;
          one_sent = logged_in.one_sent;
          full = logged_in.full;
          under = logged_in.under;
          answers = logged_in.answers;
        },
      )
