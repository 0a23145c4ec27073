-- ===== src/Exchange/Message.antt =====
-- A sealed message in the buffer of the lock.
use esloq.Base.{
  ℕ, ◌≡◌, sym, ◌∙◌, ap, ap₂, subst, List, [], ◌∷◌, ◌++◌, length, take, drop, arith, append_assoc,
  take-append, drop-append, take-append-drop, ok, Outcome,
}
use esloq.Crypto.{SecretBox, IsSecretBox}
use esloq.Nonce.Order.{AllBytes}
use esloq.Wrappers.{jni_decrypt}
use esloq.Wrappers.Agree.{sealed, phone_decrypt}
use esloq.Lock.State.{Machine, lock_receive}
use esloq.Lock.Handlers.Buffer.{receive_parts, joined}
use esloq.Lock.Handlers.{ble_evt_attributes_value}
use esloq.Lock.Handlers.Steady.{value-Steady}
use esloq.Lock.Steady.{Steady, Steady-pure, Advances-bind}
use esloq.Lock.Ticket.Branches.{sealed_byte}
use esloq.Lock.WellFormed.{IsWellFormed}

-- A buffer that begins with a nonce and a box holds them where they are looked for.
pub message_parts :
    (bytes nonce c : List ℕ) (n : ℕ)
    → length nonce ≡ 24
    → take n bytes ≡ nonce ++ c
    → (take 24 bytes ≡ nonce) × (take (length c) (drop 24 bytes) ≡ c)
message_parts bytes nonce c n nonce24 e =
    let whole : bytes ≡ nonce ++ (c ++ drop n bytes) =
      sym (take-append-drop n bytes)
      ∙ ap (λ l. l ++ drop n bytes) e
      ∙ append_assoc nonce c (drop n bytes) in
    (
      ap (take 24) whole
          ∙ ap (λ k. take k (nonce ++ (c ++ drop n bytes))) (sym nonce24)
          ∙ take-append nonce (c ++ drop n bytes),
      ap (λ l. take (length c) (drop 24 l)) whole
          ∙ ap (λ k. take (length c) (drop k (nonce ++ (c ++ drop n bytes)))) (sym nonce24)
          ∙ ap (take (length c)) (drop-append nonce (c ++ drop n bytes))
          ∙ take-append c (drop n bytes),
    )

-- An answer begins with its nonce.
pub nonce_first :
    (box : SecretBox) (code : ℕ) (nonce key : List ℕ)
    → length nonce ≡ 24
    → take 24 (sealed_byte box code nonce key) ≡ nonce
nonce_first box code nonce key nonce24 =
    ap (λ l. take l (sealed_byte box code nonce key)) (sym nonce24) ∙ take-append nonce _

-- What the phone opens of the answer to a byte.
pub opens_answer :
    (box : SecretBox) (doc : IsSecretBox box) (code : ℕ) (nonce key : List ℕ)
    → length nonce ≡ 24
    → length key ≡ 32
    → jni_decrypt box
        (drop 24 (sealed_byte box code nonce key))
        (take 24 (sealed_byte box code nonce key))
        key
      ≡ code ∷ []
opens_answer box doc code nonce key nonce24 key32 =
    let body = drop 16 (sealed box doc (code ∷ []) nonce key (omega arith) nonce24 key32) in
    ap (λ l. jni_decrypt box (drop l (nonce ++ body)) (take l (nonce ++ body)) key) (sym nonce24)
    ∙ ap₂ (λ c n. jni_decrypt box c n key) (drop-append nonce body) (take-append nonce body)
    ∙ phone_decrypt box doc (code ∷ []) nonce key (omega arith) nonce24 key32

AllBytes-split : (xs ys : List ℕ) → AllBytes (xs ++ ys) → AllBytes xs × AllBytes ys
AllBytes-split [] ys h = (tt, h)
AllBytes-split (x ∷ xs) ys h = let (front, back) = AllBytes-split xs ys h.1 in ((h.0, front), back)

-- Parts of bytes leave a well-formed machine.
pub receive_parts-Steady :
    (parts : List (List ℕ)) (last : List ℕ)
    → AllBytes (joined parts ++ last)
    → Steady (receive_parts (parts ++ (last ∷ [])))
receive_parts-Steady [] last small = record {
  at = λ m wf.
      Advances-bind (ble_evt_attributes_value lock_receive (length last) last)
        (λ _. receive_parts []) m m ((value-Steady lock_receive (length last) last small).at m wf)
        (λ _. Steady-pure tt);
}
receive_parts-Steady (p ∷ parts) last small =
    let (front, back) =
      AllBytes-split p (joined parts ++ last)
        (subst AllBytes (append_assoc p (joined parts) last) small) in
    record {
      at = λ m wf.
          Advances-bind (ble_evt_attributes_value lock_receive (length p) p)
            (λ _. receive_parts (parts ++ (last ∷ []))) m m
            ((value-Steady lock_receive (length p) p front).at m wf)
            (λ _. receive_parts-Steady parts last back);
    }

-- The machine that the parts lead to is well-formed.
pub received-IsWellFormed :
    (parts : List (List ℕ)) (last : List ℕ) {m m' : Machine}
    → IsWellFormed m
    → AllBytes (joined parts ++ last)
    → receive_parts (parts ++ (last ∷ [])) m ≡ (m', ok tt)
    → IsWellFormed m'
received-IsWellFormed parts last {m} wf small e =
    subst (λ (r : Machine × Outcome (Unit {0})). IsWellFormed r.0) e
      ((receive_parts-Steady parts last small).at m wf).well_formed
