-- ===== src/Lock/Protocol.antt =====
-- What the protocol promises, without buffers, packets and pins: the number of the last ticket, and
-- the session that a ticket has begun, with its key and the number of its last nonce.
pub mod Messages
pub mod Lives
pub mod Authentic
use esloq.Base.{ℕ, ◌+◌, ◌<◌, ◌≡◌, List, Option, none, some, ◌++◌, drop, replicate, if◌then◌else◌}
use esloq.Crypto.{SecretBox}
use esloq.Nonce.Order.{value}
use esloq.Lock.State.{Machine}
use esloq.Lock.Handlers.Session.{in_session}

pub record Session : Type 0 where
  pub key : List ℕ
  pub last : ℕ

pub record Protocol : Type 0 where
  pub last_ticket : ℕ
  pub session : Option Session

-- What a box without its zeros opens to.
abbrev pub opening : SecretBox → List ℕ → List ℕ → List ℕ → ℕ × List ℕ
opening box c nonce key = box.secretbox_open (replicate 16 0 ++ c) nonce key

-- A step of the protocol of a lock with the master key `master`.
pub data Step (box : SecretBox) (master : List ℕ) (p : Protocol) : Protocol → Type 0 where
  -- A ticket of a greater number is spent, whether it is authentic or not.
  spends_ticket :
      (number : ℕ)
      → p.last_ticket < number
      → Step box master p (record { last_ticket = number; session = none })
  -- A session begins by a ticket of a greater number that opens under the master key.
  begins :
      (nonce c : List ℕ)
      → p.last_ticket < value nonce
      → (opening box c nonce master).0 ≡ 0
      → Step box master p (record {
        last_ticket = value nonce;
        session = some (record { key = drop 32 (opening box c nonce master).1; last = 1 });
      })
  -- A number is spent in a session, by a request that is not obeyed or not answered.
  spends_request :
      (s : Session) (number : ℕ)
      → p.session ≡ some s
      → s.last < number
      → Step box master p (record p { session = some (record s { last = number }) })
  -- A request of a greater number that opens under the session key is answered.
  answers_request :
      (s : Session) (nonce c : List ℕ)
      → p.session ≡ some s
      → s.last < value nonce
      → (opening box c nonce s.key).0 ≡ 0
      → Step box master p (record p { session = some (record s { last = value nonce + 1 }) })
  ends : Step box master p (record p { session = none })

pub data Steps (box : SecretBox) (master : List ℕ) (p : Protocol) : Protocol → Type 0 where
  none_yet : Steps box master p p
  next :
      {p' p'' : Protocol} → Steps box master p p' → Step box master p' p'' → Steps box master p p''

pub Steps-trans :
    {box : SecretBox} {master : List ℕ} {p p' p'' : Protocol}
    → Steps box master p p'
    → Steps box master p' p''
    → Steps box master p p''
Steps-trans first none_yet = first
Steps-trans first (next rest step) = next (Steps-trans first rest) step

-- How a machine stands in the protocol.
abbrev pub session_of : Machine → Session
session_of m = record { key = m.session_key; last = value m.session_nonce }

abbrev pub view : Machine → Protocol
view m = record {
  last_ticket = value m.master_nonce_eeprom;
  session = if in_session m.state then some (session_of m) else none;
}
