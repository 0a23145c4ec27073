-- ===== src/Exchange/Order.antt =====
-- A request of the phone, from its encryption to the answer that the phone opens.
use esloq.Base.{
  ℕ, ◌+◌, ◌≤◌, ◌<◌, ◌≡◌, ◌≢◌, refl, sym, ◌∙◌, ap, subst, List, [], ◌∷◌, ◌++◌, length, take, drop,
  replicate, arith, ok, length-append,
}
use esloq.Crypto.{SecretBox, IsSecretBox}
use esloq.Mcu.{Mcu, SamePorts}
use esloq.Motor.{Rotation}
use esloq.Motor.Wait.{IsLongEnough}
use esloq.Nonce.Order.{AllBytes, value}
use esloq.Uart.{Window}
use esloq.Wrappers.{jni_encrypt, jni_decrypt}
use esloq.Wrappers.Agree.{sealed, phone_encrypt, opens, length-body}
use esloq.Lock.Fsm.{FsmInputs, fsm_process, dispatch, after_request}
use esloq.Lock.Handlers.Buffer.{receive_parts, joined, holding, attributes_value-request}
use esloq.Lock.Monad.{◌>>◌, >>=-ok}
use esloq.Lock.Respond.Delivery.{TakesSections, send_response-sent}
use esloq.Lock.Request.{process_request_msg}
use esloq.Lock.Request.Branches.{
  opened_request, Served, request_served, process_request_msg-accepted,
}
use esloq.Lock.State.{State, Machine, BgLib, attributes_write, lock_transmit}
use esloq.Lock.Ticket.Branches.{sealed_byte}
use esloq.Lock.Ticket.Replay.{length-sealed_byte}
use esloq.Lock.WellFormed.{IsWellFormed, nonce_of, box_of}
use esloq.Exchange.Message.{message_parts, nonce_first, opens_answer, received-IsWellFormed}

module _ (box : SecretBox) (doc : IsSecretBox box) (request : ℕ) (nonce key : List ℕ)
    (nonce24 : length nonce ≡ 24) (key32 : length key ≡ 32) where
  abbrev pub order : List ℕ
  order = jni_encrypt box (request ∷ []) nonce key

  body : order ≡ drop 16 (sealed box doc (request ∷ []) nonce key (omega arith) nonce24 key32)
  body = phone_encrypt box doc (request ∷ []) nonce key (omega arith) nonce24 key32

  pub length-order : length order ≡ 17
  length-order =
      ap length body ∙ length-body box doc (request ∷ []) nonce key (omega arith) nonce24 key32

  -- The lock opens the order to the byte that the phone has put in it.
  opens_to_request :
      (m : Machine)
      → m.session_key ≡ key
      → take 41 m.msg_buf.bytes ≡ nonce ++ order
      → (nonce_of m ≡ nonce) × (opened_request box m ≡ (0, replicate 32 0 ++ (request ∷ [])))
  opens_to_request m same e =
      let (n_at, c_at) = message_parts m.msg_buf.bytes nonce order 41 nonce24 e in
      let c_at17 : box_of 17 m ≡ order = ap (λ k. box_of k m) (sym length-order) ∙ c_at in
      (
        n_at,
        (λ i. box.secretbox_open (replicate 16 0 ++ (c_at17 ∙ body) i) (n_at i) (same i))
            ∙ opens box doc (request ∷ []) nonce key (omega arith) nonce24 key32,
      )

-- The lock after an order: the byte has been served by the motor, requests are awaited again under a
-- nonce that is one more, and the first 20 bytes of an answer are sent that the phone opens to the
-- code of what was done.
pub record Obeyed (box : SecretBox) (rotation : Rotation) (before after : Machine) (request : ℕ)
    (nonce : List ℕ) : Type 0 where
  pub served_mcu : Mcu
  pub code : ℕ
  pub served : Served rotation before.uart.mcu served_mcu request code
  pub ports : SamePorts served_mcu after.uart.mcu
  pub awaits : after.state ≡ State.request_w
  pub empty : after.msg_buf.len ≡ 0
  pub session_key : after.session_key ≡ before.session_key
  pub session_nonce : value after.session_nonce ≡ value nonce + 1
  pub sends :
      after.commands
      ≡ attributes_write lock_transmit 0 20 (take 20 after.att_write_buffer.bytes) ∷ before.commands
  pub one_sent : after.att_write_buffer.section_sent ≡ 0
  pub full : length after.att_write_buffer.bytes ≡ 41
  pub under : take 24 after.att_write_buffer.bytes ≡ after.session_nonce
  pub answers :
      jni_decrypt box
        (drop 24 after.att_write_buffer.bytes)
        (take 24 after.att_write_buffer.bytes)
        before.session_key
      ≡ code ∷ []

-- The port registers of the motor are bytes.
abbrev pub BytePorts : Mcu → Type 0
BytePorts mcu = (mcu.portd < 256) × (mcu.portb < 256)

pub Served-BytePorts :
    (rotation : Rotation) (before after : Mcu) (request code : ℕ)
    → Served rotation before after request code
    → BytePorts before
    → BytePorts after
Served-BytePorts rotation before after request code (Served.locks _ _ _ rests) small =
    (rests.pins.3, rests.portb_byte)
Served-BytePorts rotation before after request code (Served.unlocks _ _ _ rests) small =
    (rests.pins.3, rests.portb_byte)
Served-BytePorts rotation before after request code (Served.refuses _ _ _ same) small =
    subst BytePorts (sym same) small

pub SamePorts-BytePorts :
    (before after : Mcu) → SamePorts before after → BytePorts before → BytePorts after
SamePorts-BytePorts before after same small =
    (subst (λ n. n < 256) (sym same.0) small.0, subst (λ n. n < 256) (sym same.1) small.1)

module _ (box : SecretBox) (doc : IsSecretBox box) (bg : BgLib) (w : Window) (ws : List Window)
    (takes : TakesSections bg w ws) (inputs : FsmInputs) (long : IsLongEnough inputs.rotation) where
  abbrev sending : FsmInputs
  sending = record inputs { windows = w ∷ ws }

  -- A machine in the state REQUEST with a fresh order in its buffer.
  processes :
      (request : ℕ) (nonce : List ℕ) (m : Machine)
      → IsWellFormed m
      → m.state ≡ State.request
      → nonce_of m ≡ nonce
      → nonce ≢ replicate 24 255
      → opened_request box m ≡ (0, replicate 32 0 ++ (request ∷ []))
      → value m.session_nonce < value nonce
      → m.uart.mcu.portd < 256
      → m.uart.mcu.portb < 256
      → (m' : Machine) × (fsm_process box bg sending m ≡ (m', ok tt))
        × Obeyed box inputs.rotation m m' request nonce
  unfolding fsm_process dispatch after_request
  processes request nonce m wf s at_nonce room opened fresh hd hb =
      let (after, code, next, served, up, next24, accepted) =
        process_request_msg-accepted box doc bg (w ∷ ws) inputs.rotation m wf request
          (subst (λ n. value m.session_nonce < value n) (sym at_nonce) fresh)
          (ap (λ (r : ℕ × List ℕ). r.0) opened) (ap (λ (r : ℕ × List ℕ). drop 32 r.1) opened)
          (subst (λ n. n ≢ replicate 24 255) (sym at_nonce) room) long hd hb in
      let rsp = sealed_byte box code next m.session_key in
      let (u, sent, same) =
        send_response-sent bg w ws rsp
          (request_served box doc bg (w ∷ ws) inputs.rotation m wf after next) takes
          (length-sealed_byte box doc code next m.session_key next24) in
      (
        _,
        ap (λ st. dispatch box bg sending st m) s
            ∙ >>=-ok (process_request_msg box bg (w ∷ ws) inputs.rotation) after_request
                (accepted ∙ sent),
        record {
          served_mcu = after.mcu;
          code = code;
          served = served;
          ports = same;
          awaits = refl;
          empty = refl;
          session_key = refl;
          session_nonce = up ∙ ap (λ n. value n + 1) at_nonce;
          sends = refl;
          one_sent = refl;
          full = length-sealed_byte box doc code next m.session_key next24;
          under = nonce_first box code next m.session_key next24;
          answers = opens_answer box doc code next m.session_key next24 wf.key_room;
        },
      )

  -- An order that the phone seals under the session key, with a nonce of 24 bytes greater than the
  -- last one and not all 255, is obeyed and answered: delivered in whatever parts, the last of them not
  -- empty, to a well-formed lock that awaits requests, holds no part of a message and has bytes in its
  -- port registers, it is processed by the next call of `fsm_process`, which returns where the motor's
  -- timer runs and the module takes the first section of the response; the byte has been served, and
  -- the phone opens the response with the session key to the code of what was done.
  pub order-Obeyed :
      (request : ℕ) (nonce : List ℕ) (parts : List (List ℕ)) (last : List ℕ) (m : Machine)
      → IsWellFormed m
      → m.state ≡ State.request_w
      → m.msg_buf.len ≡ 0
      → length nonce ≡ 24
      → nonce ≢ replicate 24 255
      → AllBytes (joined parts ++ last)
      → joined parts ++ last ≡ nonce ++ jni_encrypt box (request ∷ []) nonce m.session_key
      → 1 ≤ length last
      → value m.session_nonce < value nonce
      → m.uart.mcu.portd < 256
      → m.uart.mcu.portb < 256
      → (m' : Machine) × ((receive_parts (parts ++ (last ∷ [])) >> fsm_process box bg sending) m
          ≡ (m', ok tt))
        × Obeyed box inputs.rotation m m' request nonce
  order-Obeyed request nonce parts last m wf s empty nonce24 room small whole some_last fresh hd
        hb =
      let c17 = length-order box doc request nonce m.session_key nonce24 wf.key_room in
      let c = jni_encrypt box (request ∷ []) nonce m.session_key in
      let (bytes, received, prefix, full) =
        attributes_value-request parts last m s empty wf.msg_room some_last (
          omega (
            arith,
            length-append (joined parts) last,
            ap length whole,
            length-append nonce c,
            c17,
            nonce24,
          )) in
      let m1 = holding m 41 bytes State.request in
      let (at_nonce, opened) =
        opens_to_request box doc request nonce m.session_key nonce24 wf.key_room m1 refl
          (prefix ∙ whole) in
      let (m', done, obeyed) =
        processes request nonce m1 (received-IsWellFormed parts last wf small received) refl
          at_nonce room opened fresh hd hb in
      (
        m',
        >>=-ok (receive_parts (parts ++ (last ∷ []))) (λ _. fsm_process box bg sending) received
            ∙ done,
        record {
          served_mcu = obeyed.served_mcu;
          code = obeyed.code;
          served = obeyed.served;
          ports = obeyed.ports;
          awaits = obeyed.awaits;
          empty = obeyed.empty;
          session_key = obeyed.session_key;
          session_nonce = obeyed.session_nonce;
          sends = obeyed.sends;
          one_sent = obeyed.one_sent;
          full = obeyed.full;
          under = obeyed.under;
          answers = obeyed.answers;
        },
      )
