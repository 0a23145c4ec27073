-- ===== src/Phone/Reading.antt =====
-- What the phone makes of the sections of a response.
use esloq.Base.{
  ℕ, zero, suc, ◌+◌, ◌<◌, ◌≤◌, ◌≡◌, refl, sym, ◌∙◌, ap, subst, List, [], ◌∷◌, ◌++◌, length, some,
  take, drop, arith, append_assoc, length-take, length-drop, take-append-drop, take-all, ne→==, ◌≢◌,
  none, copy_into_lem, Option,
}
use esloq.Crypto.{SecretBox}
use esloq.Nonce.Order.{value}
use esloq.Lock.Handlers.Buffer.{appended, take-appended, length-appended}
use esloq.Wrappers.{jni_decrypt}
use esloq.Phone.{
  Phone, Tried, gave, ◌>>=◌, IncomingMessageBuffer, LockResponseCode, from_integer, sign_extend,
  put, received, process_message, handle_message,
}
use esloq.Phone.Increment.{AllLow}
use esloq.Phone.Opening.{process_message_lem}

-- A message that fits is put at the end of the buffer.
put_lem :
    (message : List ℕ) (position : ℕ) (bytes : List ℕ)
    → position + length message ≤ length bytes
    → put message (record { position = position; bytes = bytes })
      ≡ gave (record {
        position = position + length message;
        bytes = appended (record { len = position; bytes = bytes }) message;
      })
unfolding put
put_lem message position bytes fits = rw (copy_into_lem bytes message position fits)

-- The three notifications of a response; the last one brings bytes that are not looked at.
abbrev pub read_sections :
    SecretBox → List ℕ → List ℕ → Phone → Phone × Tried (Option LockResponseCode)
read_sections box rsp filler phone =
    let phone1 = (handle_message box (take 20 rsp) phone).0 in
    let phone2 = (handle_message box (take 20 (drop 20 rsp)) phone1).0 in
    handle_message box (drop 40 rsp ++ filler) phone2

drop-nil : (n : ℕ) → drop {A = ℕ} n [] ≡ []
drop-nil zero = refl
drop-nil (suc n) = refl

drop-drop : (n k : ℕ) (xs : List ℕ) → drop k (drop n xs) ≡ drop (n + k) xs
drop-drop zero k xs = ap (λ j. drop j xs) {y = zero + k} (omega arith)
drop-drop (suc n) k [] = drop-nil k ∙ sym (drop-nil (suc n + k))
drop-drop (suc n) k (x ∷ xs) =
    drop-drop n k xs ∙ ap (λ j. drop j (x ∷ xs)) {x = suc (n + k)} (omega arith)

single : (xs : List ℕ) → length xs ≡ 1 → (c : ℕ) × (xs ≡ c ∷ [])
single [] e = absurd (omega arith)
single (x ∷ []) e = (x, refl)
single (x ∷ y ∷ xs) e = absurd (omega arith)

received_part :
    (message : List ℕ) (position : ℕ) (bytes : List ℕ)
    → position ≢ 40
    → position + length message ≤ length bytes
    → received message (record { position = position; bytes = bytes })
      ≡ gave (record {
        position = position + length message;
        bytes = appended (record { len = position; bytes = bytes }) message;
      })
unfolding received
received_part message position bytes other fits =
    rw (ne→== position 40 other) (put_lem message position bytes fits)

received_last :
    (c : ℕ) (rest bytes : List ℕ)
    → length bytes ≡ 41
    → received (c ∷ rest) (record { position = 40; bytes = bytes })
      ≡ gave
          (record { position = 41; bytes = appended (record { len = 40; bytes = bytes }) (c ∷ []) })
unfolding received
received_last c rest bytes full = put_lem (c ∷ []) 40 bytes (omega arith)

module _ (box : SecretBox) (message : List ℕ) (phone : Phone) (buffer : IncomingMessageBuffer)
    (e : received message phone.incoming ≡ gave buffer) where
  handle_part :
      buffer.position ≢ 41
      → handle_message box message phone ≡ (record phone { incoming = buffer }, gave none)
  unfolding handle_message
  handle_part other = rw (e, ne→== buffer.position 41 other, handle_message)

  handle_whole :
      buffer.position ≡ 41
      → handle_message box message phone ≡ (
          let r =
            process_message box buffer.bytes
              (record phone { incoming = record { position = 0; bytes = buffer.bytes } }) in
          (r.0, r.1 >>= λ code. gave (some code)))
  unfolding handle_message
  handle_whole done = rw (e, done, handle_message)

-- The phone puts the three sections of a response together and processes it.
pub read_sections_lem :
    (box : SecretBox) (rsp filler : List ℕ) (phone : Phone)
    → length rsp ≡ 41
    → phone.incoming.position ≡ 0
    → length phone.incoming.bytes ≡ 41
    → read_sections box rsp filler phone ≡ (
        let r =
          process_message box rsp
            (record phone { incoming = record { position = 0; bytes = rsp } }) in
        (r.0, r.1 >>= λ code. gave (some code)))
read_sections_lem box rsp filler phone full start room =
    let s1 = take 20 rsp in
    let s2 = take 20 (drop 20 rsp) in
    let l1 : length s1 ≡ 20 = omega (arith, length-take 20 rsp) in
    let l2 : length s2 ≡ 20 = omega (arith, length-take 20 (drop 20 rsp), length-drop 20 rsp) in
    let (c, last) = single (drop 40 rsp) (omega (arith, length-drop 40 rsp)) in
    let b0 = phone.incoming.bytes in
    let b1 = appended (record { len = 0; bytes = b0 }) s1 in
    let b2 = appended (record { len = 20; bytes = b1 }) s2 in
    let b3 = appended (record { len = 40; bytes = b2 }) (c ∷ []) in
    let r1 : length b1 ≡ 41 =
      length-appended (record { len = 0; bytes = b0 }) s1 (omega arith) ∙ room in
    let r2 : length b2 ≡ 41 =
      length-appended (record { len = 20; bytes = b1 }) s2 (omega arith) ∙ r1 in
    let r3 : length b3 ≡ 41 =
      length-appended (record { len = 40; bytes = b2 }) (c ∷ []) (omega arith) ∙ r2 in
    let p1 : take 20 b1 ≡ s1 =
      ap (λ k. take k b1) {x = 20} {y = 0 + length s1} (omega arith)
      ∙ take-appended (record { len = 0; bytes = b0 }) s1 (omega arith) in
    let p2 : take 40 b2 ≡ s1 ++ s2 =
      ap (λ k. take k b2) {x = 40} {y = 20 + length s2} (omega arith)
      ∙ take-appended (record { len = 20; bytes = b1 }) s2 (omega arith)
      ∙ ap (λ l. l ++ s2) p1 in
    let p3 : take 41 b3 ≡ (s1 ++ s2) ++ (c ∷ []) =
      take-appended (record { len = 40; bytes = b2 }) (c ∷ []) (omega arith)
      ∙ ap (λ l. l ++ (c ∷ [])) p2 in
    let whole : b3 ≡ rsp =
      sym (take-all 41 b3 (omega arith))
      ∙ p3
      ∙ append_assoc s1 s2 (c ∷ [])
      ∙ ap (λ l. s1 ++ (s2 ++ l)) (sym last)
      ∙ joins rsp in
    let e1 : received s1 phone.incoming ≡ gave (record { position = 20; bytes = b1 }) =
      (λ i. received s1 (record { position = start i; bytes = b0 }))
      ∙ received_part s1 0 b0 (λ h. absurd (omega (arith, h))) (omega arith)
      ∙ ap (λ k. gave (record { position = k; bytes = b1 })) {x = 0 + length s1} (omega arith) in
    let e2 : received s2 (record { position = 20; bytes = b1 })
        ≡ gave (record { position = 40; bytes = b2 }) =
      received_part s2 20 b1 (λ h. absurd (omega (arith, h))) (omega arith)
      ∙ ap (λ k. gave (record { position = k; bytes = b2 })) {x = 20 + length s2} (omega arith) in
    let e3 : received (drop 40 rsp ++ filler) (record { position = 40; bytes = b2 })
        ≡ gave (record { position = 41; bytes = b3 }) =
      ap (λ l. received (l ++ filler) (record { position = 40; bytes = b2 })) last
      ∙ received_last c filler b2 r2 in
    let phone1 = record phone { incoming = record { position = 20; bytes = b1 } } in
    let phone2 = record phone { incoming = record { position = 40; bytes = b2 } } in
    let h1 =
      handle_part box s1 phone (record { position = 20; bytes = b1 }) e1
        (λ h. absurd (omega (arith, h))) in
    let h2 =
      handle_part box s2 phone1 (record { position = 40; bytes = b2 }) e2
        (λ h. absurd (omega (arith, h))) in
    ap
      (λ (r : Phone × Tried (Option LockResponseCode)).
        handle_message box (drop 40 rsp ++ filler) (handle_message box s2 r.0).0)
      h1
    ∙ ap
        (λ (r : Phone × Tried (Option LockResponseCode)).
          handle_message box (drop 40 rsp ++ filler) r.0)
        h2
    ∙ handle_whole box (drop 40 rsp ++ filler) phone2 (record { position = 41; bytes = b3 }) e3 refl
    ∙ ap
        (λ l.
          let r =
            process_message box l
              (record phone { incoming = record { position = 0; bytes = l } }) in
          (r.0, r.1 >>= λ code. gave (some code)))
        whole
  where
    joins : (xs : List ℕ) → take 20 xs ++ (take 20 (drop 20 xs) ++ drop 40 xs) ≡ xs
    joins xs =
        ap (λ l. take 20 xs ++ (take 20 (drop 20 xs) ++ l)) (sym (drop-drop 20 20 xs))
        ∙ ap (λ l. take 20 xs ++ l) (take-append-drop 20 (drop 20 xs))
        ∙ take-append-drop 20 xs

-- The phone reads the code of an answer from its three sections.
pub read_answer :
    (box : SecretBox) (rsp filler key nonce : List ℕ) (code : ℕ) (phone : Phone)
    → length rsp ≡ 41
    → phone.incoming.position ≡ 0
    → length phone.incoming.bytes ≡ 41
    → phone.session_key ≡ some key
    → AllLow phone.session_nonce
    → length phone.session_nonce ≡ 24
    → take 24 rsp ≡ nonce
    → AllLow nonce
    → value phone.session_nonce < value nonce
    → jni_decrypt box (drop 24 rsp) (take 24 rsp) key ≡ code ∷ []
    → read_sections box rsp filler phone ≡ (
      record phone { session_nonce = take 24 rsp; incoming = record { position = 0; bytes = rsp } },
      from_integer (sign_extend code) >>= λ c. gave (some c),
    )
read_answer box rsp filler key nonce code phone full start room has_key low e24 under low' lt
      opens =
    let holding = record phone { incoming = record { position = 0; bytes = rsp } } in
    read_sections_lem box rsp filler phone full start room
    ∙ ap (λ (r : Phone × Tried LockResponseCode). (r.0, r.1 >>= λ c. gave (some c)))
        (process_message_lem box rsp key code holding full has_key low
          (subst AllLow (sym under) low') e24
          (subst (λ n. value phone.session_nonce < value n) (sym under) lt) opens)
