-- ===== src/Exchange/Start.antt =====
-- The start of a session: a ticket from the server to the lock by way of the phone.
use esloq.Base.{
  ℕ, zero, suc, ◌+◌, ◌^◌, ◌≤◌, ◌<◌, ◌≡◌, refl, sym, ◌∙◌, ap, subst, List, [], ◌∷◌, ◌++◌, length,
  take, drop, replicate, arith, ok, some, length-append, length-replicate,
}
use esloq.Crypto.{SecretBox, IsSecretBox}
use esloq.Nonce.Order.{AllBytes, value}
use esloq.Mcu.{SamePorts, SamePorts-trans}
use esloq.Uart.{Window}
use esloq.Wrappers.{auth_encrypt}
use esloq.Wrappers.Agree.{sealed, server_encrypt, length-body}
use esloq.Server.{Esloq, to_bytes, next_nonce, seal_ticket, get_lock_ticket}
use esloq.Server.Bytes.{to_bytes-value, to_bytes-fits}
use esloq.Phone.{
  Phone, gave, ◌>>=◌ as try, set_session_key, set_lock_ticket, from_integer, sign_extend,
}
use esloq.Phone.Increment.{AllLow, AllLow-snoc}
use esloq.Phone.Notified.{notified, read_values, response_writes, read_values_lem}
use esloq.Phone.Reading.{read_answer}
use esloq.Lock.Board.{battery_monitor_alert}
use esloq.Lock.Fsm.{FsmInputs, fsm_process}
use esloq.Lock.Handlers.Buffer.{receive_parts, joined}
use esloq.Lock.Handlers.Acks.{Acks, TakesRest, acknowledge, acknowledged, acknowledge-sent}
use esloq.Lock.Steady.{free_change}
use esloq.Lock.Handlers.Writes.{section_write}
use esloq.Lock.Monad.{◌>>◌}
use esloq.Lock.Respond.Delivery.{TakesSections}
use esloq.Lock.State.{State, Machine, Command, BgLib}
use esloq.Lock.Ticket.Branches.{ticket_code, first_nonce}
use esloq.Lock.WellFormed.{IsWellFormed, AllBytes-append, AllBytes-drop, AllBytes-replicate}
use esloq.Exchange.Login.{ticket-answered}
use esloq.Exchange.Cuts.{fronts, rest, total, joins, length-rest, ran-IsWellFormed}
use esloq.Exchange.Session.{WritesBytes}
use esloq.Exchange.Step.{InStep}

pub AllLow-replicate : (n x : ℕ) → x < 128 → AllLow (replicate n x)
AllLow-replicate zero x h = tt
AllLow-replicate (suc n) x h = (h, AllLow-replicate n x h)

pub first_nonce-AllLow : AllLow first_nonce
first_nonce-AllLow =
    AllLow-snoc (replicate 23 0) 1 (AllLow-replicate 23 0 (omega arith)) (omega arith)

issues_lem :
    (box : SecretBox) (session_key nonce c : List ℕ) (row : Esloq)
    → to_bytes 24 (row.nonce + 1) ≡ some nonce
    → auth_encrypt box session_key nonce row.key ≡ ok (some c)
    → get_lock_ticket box session_key row
      ≡ (record row { nonce = row.nonce + 1 }, ok (some (session_key, nonce ++ c)))
unfolding get_lock_ticket next_nonce seal_ticket
issues_lem box session_key nonce c row spelled by_server = rw (spelled, seal_ticket, by_server)

keys_lem :
    (session_key ticket : List ℕ) (phone : Phone)
    → length session_key ≡ 32
    → length ticket ≡ 72
    → length phone.session_nonce ≡ 24
    → try (set_session_key session_key phone) (set_lock_ticket ticket)
      ≡ gave (record phone {
        lock_ticket = some ticket;
        session_key = some session_key;
        session_nonce = replicate 24 0;
      })
unfolding set_session_key set_lock_ticket
keys_lem session_key ticket phone key32 ticket72 nonce24 = rw (key32, ticket72, nonce24)

-- A ticket on its way: the server issues it and keeps its nonce, the phone takes the key from the
-- answer and delivers the ticket, the lock takes it and sends the rest of its response when the
-- module acknowledges the sections before, and the phone reads the code of the battery from the values
-- of the commands that the lock has given since the ticket came.
pub record Started (box : SecretBox) (bg : BgLib) (inputs : FsmInputs) (acks : Acks)
    (cuts filler session_key : List ℕ) (row : Esloq) (phone : Phone) (m : Machine) : Type 0 where
  pub ticket : List ℕ
  pub row_after : Esloq
  pub issues : get_lock_ticket box session_key row ≡ (row_after, ok (some (session_key, ticket)))
  pub keyed : Phone
  pub keys : try (set_session_key session_key phone) (set_lock_ticket ticket) ≡ gave keyed
  pub processed : Machine
  pub runs :
      (receive_parts (fronts cuts ticket ++ (rest cuts ticket ∷ [])) >> fsm_process box bg inputs) m
      ≡ (processed, ok tt)
  pub after : Machine
  pub acks_come : acknowledge bg acks processed ≡ (after, ok tt)
  pub given : List Command
  pub gives : after.commands ≡ given ++ m.commands
  pub reader : Phone
  pub reads : read_values box filler (notified given) keyed ≡ (
    reader,
    try
        (from_integer (sign_extend (ticket_code (battery_monitor_alert inputs.acsr))))
        (λ code. gave (some code)),
  )
  pub in_step : InStep reader after
  pub at_first : after.session_nonce ≡ first_nonce
  pub ports : SamePorts m.uart.mcu after.uart.mcu
  pub same_nonce : value after.master_nonce_eeprom ≡ row_after.nonce

module _ (box : SecretBox) (doc : IsSecretBox box) (writes : WritesBytes box) (bg : BgLib)
    (w : Window) (ws : List Window) (takes : TakesSections bg w ws) (acks : Acks)
    (takes_rest : TakesRest bg acks) (inputs : FsmInputs) where
  abbrev sending : FsmInputs
  sending = record inputs { windows = w ∷ ws }

  issued_ticket :
      (session_key : List ℕ) (row : Esloq)
      → length session_key ≡ 32
      → AllBytes session_key
      → length row.key ≡ 32
      → row.nonce + 1 < 2 ^ 31
      → (nonce : List ℕ) × (c : List ℕ) × (get_lock_ticket box session_key row
          ≡ (record row { nonce = row.nonce + 1 }, ok (some (session_key, nonce ++ c))))
        × (auth_encrypt box session_key nonce row.key ≡ ok (some c))
        × (value nonce ≡ row.nonce + 1)
        × (length nonce ≡ 24)
        × (length c ≡ 48)
        × AllBytes (nonce ++ c)
  issued_ticket session_key row key32 key_bytes row32 fits =
      let (nonce, spelled) = to_bytes-fits (row.nonce + 1) fits in
      let (spells, n24, small) = to_bytes-value 24 (row.nonce + 1) spelled in
      let some_key : 1 ≤ length session_key = omega (arith, key32) in
      let c = drop 16 (sealed box doc session_key nonce row.key some_key n24 row32) in
      let by_server = server_encrypt box doc session_key nonce row.key some_key n24 row32 in
      (
        nonce,
        c,
        issues_lem box session_key nonce c row spelled by_server,
        by_server,
        spells,
        n24,
        length-body box doc session_key nonce row.key some_key n24 row32 ∙ omega (arith, key32),
        AllBytes-append nonce c small (
            AllBytes-drop 16 (box.secretbox (replicate 32 0 ++ session_key) nonce row.key).1 (
              writes (replicate 32 0 ++ session_key) nonce row.key (
                AllBytes-append (replicate 32 0) session_key (AllBytes-replicate 32 0 (omega arith))
                  key_bytes))),
      )

  -- A well-formed, connected lock that holds no part of a message, whose key the server has, and
  -- whose last nonce the server's, under 2 ^ 31 - 1, is not behind of, begins a session for a phone
  -- with a nonce of 24 bytes and no part of a response waiting: where NaCl writes bytes and the
  -- Bluetooth module takes the three sections of the response in time and acknowledges the first
  -- two, the ticket is issued for a session key of 32 bytes, delivered in whatever values, those
  -- before the last together shorter than its 72 bytes, taken and answered; the phone reads the
  -- code of the battery from the values that the lock has sent, phone and lock are in step, and the
  -- server's nonce is the lock's last one again.
  pub start-InStep :
      (cuts filler session_key : List ℕ) (row : Esloq) (phone : Phone) (m : Machine)
      → IsWellFormed m
      → m.state ≡ State.connected
      → m.msg_buf.len ≡ 0
      → row.key ≡ m.master_key_eeprom
      → value m.master_nonce_eeprom ≤ row.nonce
      → row.nonce + 1 < 2 ^ 31
      → length session_key ≡ 32
      → AllBytes session_key
      → length phone.session_nonce ≡ 24
      → phone.incoming.position ≡ 0
      → length phone.incoming.bytes ≡ 41
      → total cuts < 72
      → Started box bg sending acks cuts filler session_key row phone m
  start-InStep cuts filler session_key row phone m wf connected empty same_key behind fits key32
        key_bytes nonce24 start room cut =
      let (nonce, c, issued, by_server, spells, n24, c48, small) =
        issued_ticket session_key row key32 key_bytes (ap length same_key ∙ wf.master_key_room)
          fits in
      let ticket = nonce ++ c in
      let ticket72 : length ticket ≡ 72 = omega (arith, length-append nonce c, n24, c48) in
      let bytes : AllBytes (joined (fronts cuts ticket) ++ rest cuts ticket) =
        subst AllBytes (sym (joins cuts ticket)) small in
      let (m', runs, logged_in) =
        ticket-answered box doc bg w ws takes inputs nonce session_key c (fronts cuts ticket)
          (rest cuts ticket) m wf connected empty n24 key32
          (ap (auth_encrypt box session_key nonce) (sym same_key) ∙ by_server) bytes
          (joins cuts ticket) (omega (arith, length-rest cuts ticket, ticket72, cut))
          (omega (arith, behind, spells)) in
      let keyed = record phone {
        lock_ticket = some ticket;
        session_key = some session_key;
        session_nonce = replicate 24 0;
      } in
      let rsp = m'.att_write_buffer.bytes in
      let (u, acked, same) =
        acknowledge-sent bg acks m' takes_rest logged_in.one_sent logged_in.full in
      let after = acknowledged m' u in
      let wf' =
        ran-IsWellFormed box doc bg sending (fronts cuts ticket) (rest cuts ticket) m m' wf bytes
          runs in
      record {
        ticket = ticket;
        row_after = record row { nonce = row.nonce + 1 };
        issues = issued;
        keyed = keyed;
        keys = keys_lem session_key ticket phone key32 ticket72 nonce24;
        processed = m';
        runs = runs;
        after = after;
        acks_come = acked;
        given = response_writes rsp;
        gives = ap (λ cs. section_write rsp 40 1 ∷ section_write rsp 20 20 ∷ cs) logged_in.sends;
        reader = record keyed {
          session_nonce = take 24 rsp;
          incoming = record { position = 0; bytes = rsp };
        };
        reads =
            read_values_lem box rsp filler keyed logged_in.full
            ∙ read_answer box rsp filler session_key first_nonce
                (ticket_code (battery_monitor_alert inputs.acsr)) keyed logged_in.full start room
                refl (AllLow-replicate 24 0 (omega arith)) (length-replicate {A = ℕ} 24 0)
                (logged_in.under ∙ logged_in.session_nonce) first_nonce-AllLow (omega arith)
                logged_in.answers;
        in_step = record {
          well_formed =
              (free_change m' m'.state m'.request m'.system_address u after.commands
                after.att_write_buffer.section_sent wf').well_formed;
          awaits = logged_in.awaits;
          empty = logged_in.empty;
          same_key = ap some (sym logged_in.session_key);
          same_nonce = logged_in.under;
          front = replicate 23 0;
          last = 1;
          nonce_is = logged_in.session_nonce;
          front_low = AllLow-replicate 23 0 (omega arith);
          last_low = omega arith;
          odd = refl;
          at_start = refl;
          room = logged_in.full;
        };
        at_first = logged_in.session_nonce;
        ports = SamePorts-trans m.uart.mcu m'.uart.mcu u.mcu logged_in.ports same;
        same_nonce = ap value logged_in.master_nonce ∙ spells;
      }
