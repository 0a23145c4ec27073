-- ===== src/Exchange/Session.antt =====
-- A session: the phone and the lock stay in step from order to order.
use esloq.Base.{
  ℕ, ◌+◌, ◌<◌, ◌≡◌, ◌≢◌, refl, sym, ◌∙◌, ap, subst, List, [], ◌∷◌, ◌++◌, length, take, replicate,
  arith, ok, some, length-append,
}
use esloq.Crypto.{SecretBox, IsSecretBox}
use esloq.Motor.Wait.{IsLongEnough}
use esloq.Nonce.Order.{AllBytes}
use esloq.Mcu.{SamePorts}
use esloq.Uart.{Window}
use esloq.Wrappers.{jni_encrypt}
use esloq.Wrappers.Agree.{phone_encrypt}
use esloq.Phone.{
  Phone, gave, ◌>>=◌ as try, increment_byte_array, auth_encrypt, send_encrypted_message,
  from_integer, sign_extend,
}
use esloq.Phone.Increment.{AllLow-snoc, count, value-snoc}
use esloq.Phone.Opening.{AllLow-AllBytes}
use esloq.Phone.Notified.{notified, read_values, response_writes, read_values_lem}
use esloq.Phone.Reading.{read_answer}
use esloq.Lock.Fsm.{FsmInputs, fsm_process}
use esloq.Lock.Handlers.Buffer.{receive_parts, joined}
use esloq.Lock.Handlers.Acks.{Acks, TakesRest, acknowledge, acknowledged, acknowledge-sent}
use esloq.Lock.Steady.{free_change}
use esloq.Lock.Monad.{◌>>◌}
use esloq.Lock.Handlers.Writes.{section_write}
use esloq.Lock.Respond.Delivery.{TakesSections}
use esloq.Lock.State.{Machine, Command, BgLib}
use esloq.Lock.WellFormed.{AllBytes-append, AllBytes-drop, AllBytes-replicate}
use esloq.Exchange.Cuts.{fronts, rest, total, joins, length-rest, ran-IsWellFormed}
use esloq.Exchange.Step.{
  InStep, incremented, next, steps, next-AllLow, length-next, fresh, not_full, answer_nonce,
  count-answer_nonce, last_stays,
}
use esloq.Exchange.Order.{
  BytePorts, SamePorts-BytePorts, Served-BytePorts, Obeyed, order-Obeyed, length-order,
}

-- NaCl writes bytes.
abbrev pub WritesBytes : SecretBox → Type 0
WritesBytes box = (m n k : List ℕ) → AllBytes m → AllBytes (box.secretbox m n k).1

module _ (box : SecretBox) (doc : IsSecretBox box) (writes : WritesBytes box) where
  -- What the phone sends, when the increment of its nonce succeeds.
  sends_lem :
      (request : ℕ) (phone : Phone) (nonce key : List ℕ)
      → increment_byte_array phone.session_nonce ≡ gave nonce
      → phone.session_key ≡ some key
      → send_encrypted_message box (request ∷ []) phone
        ≡ gave (
          record phone { session_nonce = nonce },
          nonce ++ jni_encrypt box (request ∷ []) nonce key,
        )
  unfolding send_encrypted_message auth_encrypt
  sends_lem request phone nonce key steps has_key = rw (steps, has_key)

  order-AllBytes :
      (request : ℕ) (nonce key : List ℕ)
      → request < 256
      → length nonce ≡ 24
      → length key ≡ 32
      → AllBytes (jni_encrypt box (request ∷ []) nonce key)
  order-AllBytes request nonce key small nonce24 key32 =
      subst AllBytes
        (sym (phone_encrypt box doc (request ∷ []) nonce key (omega arith) nonce24 key32))
        (AllBytes-drop 16 (box.secretbox (replicate 32 0 ++ (request ∷ [])) nonce key).1 (
          writes (replicate 32 0 ++ (request ∷ [])) nonce key (
            AllBytes-append (replicate 32 0) (request ∷ []) (AllBytes-replicate 32 0 (omega arith))
              (small, tt))))

-- One order, from the phone and back to it. The message is cut into values of the lengths `cuts`; the
-- lock processes it, and sends the rest of its response when the module acknowledges the sections
-- before; the phone handles the values of the commands that the lock has given since the order came,
-- and `filler` follows the last byte of the response in its notification.
pub record Ordered (box : SecretBox) (bg : BgLib) (inputs : FsmInputs) (acks : Acks)
    (cuts filler : List ℕ) (phone : Phone) (m : Machine) (request : ℕ) : Type 0 where
  pub sender : Phone
  pub message : List ℕ
  pub sends : send_encrypted_message box (request ∷ []) phone ≡ gave (sender, message)
  pub processed : Machine
  pub runs :
      (receive_parts (fronts cuts message ++ (rest cuts message ∷ [])) >> fsm_process box bg inputs)
        m
      ≡ (processed, ok tt)
  pub obeyed : Obeyed box inputs.rotation m processed request sender.session_nonce
  pub after : Machine
  pub acks_come : acknowledge bg acks processed ≡ (after, ok tt)
  pub same_ports : SamePorts processed.uart.mcu after.uart.mcu
  pub given : List Command
  pub gives : after.commands ≡ given ++ m.commands
  pub reader : Phone
  pub reads :
      read_values box filler (notified given) sender
      ≡ (reader, try (from_integer (sign_extend obeyed.code)) (λ code. gave (some code)))
  pub in_step : InStep reader after
  pub small_ports : BytePorts after.uart.mcu
  pub counts : count after.session_nonce ≡ count m.session_nonce + 2

module _ (box : SecretBox) (doc : IsSecretBox box) (writes : WritesBytes box) (bg : BgLib)
    (w : Window) (ws : List Window) (takes : TakesSections bg w ws) (acks : Acks)
    (takes_rest : TakesRest bg acks) (inputs : FsmInputs)
    (long : IsLongEnough inputs.rotation) where
  abbrev sending : FsmInputs
  sending = record inputs { windows = w ∷ ws }

  -- While the phone and the lock are in step, and their nonce is not 24 bytes of 127, an order of the
  -- user, a byte, is sent, obeyed and answered where NaCl writes bytes, the port registers are bytes,
  -- the motor's timer runs and the module takes the three sections of the response in time, into
  -- whatever values the message is cut, those before the last together shorter than its 41 bytes; the
  -- phone reads the code of what was done from the values that the lock has sent; and the two are in
  -- step again.
  pub order-InStep :
      (request : ℕ) (cuts filler : List ℕ) (phone : Phone) (m : Machine)
      → InStep phone m
      → m.session_nonce ≢ replicate 24 127
      → request < 256
      → total cuts < 41
      → m.uart.mcu.portd < 256
      → m.uart.mcu.portb < 256
      → Ordered box bg sending acks cuts filler phone m request
  order-InStep request cuts filler phone m step top small cut hd hb =
      let nonce = next phone m step top in
      let wf = step.well_formed in
      let inc = incremented phone m step top in
      let nonce24 = length-next phone m step top in
      let order = jni_encrypt box (request ∷ []) nonce m.session_key in
      let sender = record phone { session_nonce = nonce } in
      let message = nonce ++ order in
      let parts = fronts cuts message in
      let last = rest cuts message in
      let bytes : AllBytes (joined parts ++ last) = subst AllBytes (sym (joins cuts message)) (
        AllBytes-append nonce order (AllLow-AllBytes nonce (next-AllLow phone m step top))
          (order-AllBytes box doc writes request nonce m.session_key small nonce24 wf.key_room)) in
      let (m', runs, obeyed) =
        order-Obeyed box doc bg w ws takes inputs long request nonce parts last m wf step.awaits
          step.empty nonce24 (not_full phone m step top) bytes (joins cuts message)
          (omega (
            arith,
            cut,
            length-rest cuts message,
            length-append nonce order,
            length-order box doc request nonce m.session_key nonce24 wf.key_room,
            nonce24,
          ))
          (fresh phone m step top) hd hb in
      let wf' = ran-IsWellFormed box doc bg sending parts last m m' wf bytes runs in
      let rsp = m'.att_write_buffer.bytes in
      let (u, acked, same) = acknowledge-sent bg acks m' takes_rest obeyed.one_sent obeyed.full in
      let after = acknowledged m' u in
      let nonce' =
        answer_nonce phone m step top m'.session_nonce wf'.nonce_bytes wf'.nonce_room
          obeyed.session_nonce in
      let (last_low, odd) = last_stays phone m step top in
      record {
        sender = sender;
        message = message;
        sends =
            sends_lem box doc writes request phone nonce m.session_key (steps phone m step top)
              step.same_key;
        processed = m';
        runs = runs;
        obeyed = obeyed;
        after = after;
        acks_come = acked;
        same_ports = same;
        given = response_writes rsp;
        gives = ap (λ cs. section_write rsp 40 1 ∷ section_write rsp 20 20 ∷ cs) obeyed.sends;
        reader = record sender {
          session_nonce = take 24 rsp;
          incoming = record { position = 0; bytes = rsp };
        };
        reads =
            read_values_lem box rsp filler sender obeyed.full
            ∙ read_answer box rsp filler m.session_key (inc.front ++ ((inc.last + 1) ∷ []))
                obeyed.code sender obeyed.full step.at_start step.room step.same_key
                (next-AllLow phone m step top) nonce24 (obeyed.under ∙ nonce')
                (AllLow-snoc inc.front (inc.last + 1) inc.low last_low)
                (omega (arith, value-snoc inc.front inc.last, value-snoc inc.front (inc.last + 1)))
                obeyed.answers;
        in_step = record {
          well_formed =
              (free_change m' m'.state m'.request m'.system_address u after.commands
                after.att_write_buffer.section_sent wf').well_formed;
          awaits = obeyed.awaits;
          empty = obeyed.empty;
          same_key = step.same_key ∙ ap some (sym obeyed.session_key);
          same_nonce = obeyed.under;
          front = inc.front;
          last = inc.last + 1;
          nonce_is = nonce';
          front_low = inc.low;
          last_low = last_low;
          odd = odd;
          at_start = refl;
          room = obeyed.full;
        };
        small_ports = SamePorts-BytePorts m'.uart.mcu u.mcu same (
            SamePorts-BytePorts obeyed.served_mcu m'.uart.mcu obeyed.ports (
              Served-BytePorts inputs.rotation m.uart.mcu obeyed.served_mcu request obeyed.code
                obeyed.served (hd, hb)));
        counts = ap count nonce' ∙ count-answer_nonce phone m step top;
      }
