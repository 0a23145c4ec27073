-- ===== src/Lock/Handlers/Writes.antt =====
-- The three writes that carry a response of 41 bytes: the one of `process_ticket_msg` or
-- `process_request_msg`, and the two of `ble_rsp_attributes_write`.
use esloq.Base.{
  ℕ, zero, suc, ◌+◌, ◌%◌, ◌≤◌, ◌≡◌, refl, sym, ◌∙◌, ap, List, [], ◌∷◌, ◌++◌, Outcome, ok, halted,
  inl, inr, take, drop, length, arith, take-append-drop, take-all, ◌==◌, if◌then◌else◌, length-drop,
}
use esloq.Uart.{Window}
use esloq.Lock.State.{
  AttributesWriteBuffer, Machine, Command, BgLib, attributes_write, lock_transmit,
}
use esloq.Lock.Monad.{◌>>◌, modify, >>=-ok, >>=-halted}
use esloq.Lock.Send.{ble_cmd}
use esloq.Lock.Send.Frame.{ble_cmd_frame}
use esloq.Lock.Respond.{write_section, send_response}
use esloq.Lock.Respond.Keeps.{unit_cases, write_section_lem}
use esloq.Lock.Handlers.{next_section, ble_rsp_attributes_write}

-- The write of `len` bytes of `rsp` from `off`.
abbrev pub section_write : List ℕ → ℕ → ℕ → Command
section_write rsp off len = attributes_write lock_transmit 0 len (take len (drop off rsp))

set_section : (ℕ → ℕ) → Machine → Machine
set_section g m = record m {
  att_write_buffer = record {
    section_sent = g m.att_write_buffer.section_sent;
    bytes = m.att_write_buffer.bytes;
  };
}

module _ (bg : BgLib) (ws : List Window) (off len : ℕ) (g : ℕ → ℕ) (m m' : Machine) where
  -- A write that succeeds is the only command, and leaves the buffer and the count it sets.
  section_written :
      off + len ≤ length m.att_write_buffer.bytes
      → (write_section bg ws off len >> modify (set_section g)) m ≡ (m', ok tt)
      → (m'.commands ≡ section_write m.att_write_buffer.bytes off len ∷ m.commands)
        × (m'.att_write_buffer ≡ record {
          section_sent = g m.att_write_buffer.section_sent;
          bytes = m.att_write_buffer.bytes;
        })
  unfolding set_section
  section_written fits h = elim (unit_cases (write_section bg ws off len m).1) [
    | inl e ↦
        let c = section_write m.att_write_buffer.bytes off len in
        let done : m' ≡ set_section g (ble_cmd bg ws c m).0 =
          sym (ap (λ (r : Machine × Outcome (Unit {0})). r.0) h)
          ∙ ap (λ (r : Machine × Outcome (Unit {0})). r.0)
              (>>=-ok (write_section bg ws off len) (λ _. modify (set_section g))
                (λ i. ((write_section bg ws off len m).0, e i)))
          ∙ ap (λ (r : Machine × Outcome (Unit {0})). set_section g r.0)
              (write_section_lem bg ws off len m fits) in
        let framed = done ∙ ap (set_section g) (ble_cmd_frame bg ws c m) in
        (ap (λ (s : Machine). s.commands) framed, ap (λ (s : Machine). s.att_write_buffer) framed)
    | inr (s, e) ↦
        let stopped : halted s ≡ ok tt =
          sym (
            ap (λ (r : Machine × Outcome (Unit {0})). r.1)
              (>>=-halted (write_section bg ws off len) (λ _. modify (set_section g))
                (λ i. ((write_section bg ws off len m).0, e i))))
          ∙ ap (λ (r : Machine × Outcome (Unit {0})). r.1) h in
        cc
  ]

pub ack_lem :
    (bg : BgLib) (ws : List Window) (m : Machine) (k : ℕ)
    → m.att_write_buffer.section_sent ≡ k
    → ble_rsp_attributes_write bg ws 0 m ≡ (
        if k == 0
        then (write_section bg ws 20 20 >> modify next_section) m
        else if k == 1
        then (write_section bg ws 40 1 >> modify next_section) m
        else (m, ok tt))
unfolding ble_rsp_attributes_write
ack_lem bg ws m k e =
    ap
      (λ n.
        if n == 0
        then (write_section bg ws 20 20 >> modify next_section) m
        else if n == 1
        then (write_section bg ws 40 1 >> modify next_section) m
        else (m, ok tt))
      e

drop-nil : (n : ℕ) → drop {A = ℕ} n [] ≡ []
drop-nil zero = refl
drop-nil (suc n) = refl

drop-drop : (n k j : ℕ) (xs : List ℕ) → j ≡ n + k → drop k (drop n xs) ≡ drop j xs
drop-drop zero k j xs e = ap (λ i. drop i xs) (omega arith)
drop-drop (suc n) k j [] e = drop-nil k ∙ sym (drop-nil j)
drop-drop (suc n) k zero (x ∷ xs) e = absurd (omega arith)
drop-drop (suc n) k (suc j) (x ∷ xs) e = drop-drop n k j xs (omega arith)

sections_whole :
    (rsp : List ℕ)
    → length rsp ≡ 41
    → take 20 rsp ++ (take 20 (drop 20 rsp) ++ take 1 (drop 40 rsp)) ≡ rsp
sections_whole rsp full =
    ap (λ r. take 20 rsp ++ (take 20 (drop 20 rsp) ++ r))
      (take-all 1 (drop 40 rsp) (omega (arith, length-drop 40 rsp))
        ∙ sym (drop-drop 20 20 40 rsp refl))
    ∙ ap (λ r. take 20 rsp ++ r) (take-append-drop 20 (drop 20 rsp))
    ∙ take-append-drop 20 rsp

module _ (bg : BgLib) (ws ws1 ws2 ws3 : List Window) (rsp : List ℕ) (m m1 m2 m3 : Machine)
    (full : length rsp ≡ 41) where
  -- A response of 41 bytes reaches the Bluetooth module whole: if the first write and those on the
  -- next two acknowledgements succeed, exactly these three commands are given, of 20, 20 and 1 bytes
  -- that are together the response, in order; and a further acknowledgement sends nothing.
  pub response-sent :
      send_response bg ws rsp m ≡ (m1, ok tt)
      → ble_rsp_attributes_write bg ws1 0 m1 ≡ (m2, ok tt)
      → ble_rsp_attributes_write bg ws2 0 m2 ≡ (m3, ok tt)
      → (m3.commands
          ≡ section_write rsp 40 1 ∷ section_write rsp 20 20 ∷ section_write rsp 0 20 ∷ m.commands)
        × (take 20 rsp ++ (take 20 (drop 20 rsp) ++ take 1 (drop 40 rsp)) ≡ rsp)
        × (ble_rsp_attributes_write bg ws3 0 m3 ≡ (m3, ok tt))
  unfolding send_response ble_rsp_attributes_write set_section
  response-sent h1 h2 h3 =
      let loaded : Machine = record m {
        att_write_buffer = record { section_sent = m.att_write_buffer.section_sent; bytes = rsp };
      } in
      let next : ℕ → ℕ = λ n. (n + 1) % 256 in
      let (c1, b1) = section_written bg ws 0 20 (λ _. 0) loaded m1 (omega (arith, full)) h1 in
      let bytes1 = ap (λ (b : AttributesWriteBuffer). b.bytes) b1 in
      let sent1 = ap (λ (b : AttributesWriteBuffer). b.section_sent) b1 in
      let (c2, b2) =
        section_written bg ws1 20 20 next m1 m2 (omega (arith, full, ap length bytes1))
          (sym (ack_lem bg ws1 m1 0 sent1) ∙ h2) in
      let bytes2 = ap (λ (b : AttributesWriteBuffer). b.bytes) b2 ∙ bytes1 in
      let sent2 = ap (λ (b : AttributesWriteBuffer). b.section_sent) b2 ∙ ap next sent1 in
      let (c3, b3) =
        section_written bg ws2 40 1 next m2 m3 (omega (arith, full, ap length bytes2))
          (sym (ack_lem bg ws2 m2 1 sent2) ∙ h3) in
      let sent3 = ap (λ (b : AttributesWriteBuffer). b.section_sent) b3 ∙ ap next sent2 in
      (
        c3
            ∙ ap (λ b. section_write b 40 1 ∷ m2.commands) bytes2
            ∙ ap (λ cs. section_write rsp 40 1 ∷ cs)
                (c2
                  ∙ ap (λ b. section_write b 20 20 ∷ m1.commands) bytes1
                  ∙ ap (λ cs. section_write rsp 20 20 ∷ cs) c1),
        sections_whole rsp full,
        ack_lem bg ws3 m3 2 sent3,
      )
