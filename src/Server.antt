-- ===== src/Server.antt =====
-- The ticket of webserver/esloq/views.py (`getlockticket`) and the row of a lock in
-- webserver/esloq/models.py that it reads and writes. `urandom` and the database are arguments; the
-- base 64 of the answer, which the phone takes off again, is left out.
pub mod Bytes
pub mod Access
pub mod Logs
use esloq.Base.{
  ℕ, zero, suc, ◌+◌, ◌/◌, ◌%◌, List, [], ◌∷◌, ◌++◌, Option, none, some, Outcome, ok, ◌>>=◌, ◌==◌,
  if◌then◌else◌,
}
use esloq.Crypto.{SecretBox}
use esloq.Nonce.{nonce_len}
use esloq.Wrappers.{auth_encrypt}

-- A row of the table `Esloq`, as far as tickets go.
pub record Esloq : Type 0 where
  pub key : List ℕ
  pub nonce : ℕ

-- `int.to_bytes(length, byteorder='big')`; `none` is OverflowError.
unfoldable pub to_bytes : ℕ → ℕ → Option (List ℕ)
to_bytes zero n = if n == 0 then some [] else none
to_bytes (suc length) n = elim (to_bytes length (n / 256)) [
  | none ↦ none
  | some high ↦ some (high ++ (n % 256 ∷ []))
]

-- The object in memory once its nonce is incremented; `save` writes it to the row.
unfoldable pub next_nonce : Esloq → Esloq
next_nonce lock = record lock { nonce = lock.nonce + 1 }

-- The session key and the ticket for the object; `none` is an exception.
unfoldable pub seal_ticket : SecretBox → List ℕ → Esloq → Outcome (Option (List ℕ × List ℕ))
unfolding to_bytes
seal_ticket box session_key lock = elim (to_bytes nonce_len lock.nonce) [
  | none ↦ ok none
  | some nonce ↦ auth_encrypt box session_key nonce lock.key >>= λ c. elim c [
    | none ↦ ok none
    | some c ↦ ok (some (session_key, nonce ++ c))
  ]
]

-- The row afterwards, and the answer.
unfoldable pub get_lock_ticket :
    SecretBox → List ℕ → Esloq → Esloq × Outcome (Option (List ℕ × List ℕ))
unfolding next_nonce seal_ticket
get_lock_ticket box session_key row =
    let lock = next_nonce row in (lock, seal_ticket box session_key lock)
