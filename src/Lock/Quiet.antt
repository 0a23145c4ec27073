-- ===== src/Lock/Quiet.antt =====
-- What the actions of the lock that take no ticket and no request leave alone, whether they return
-- or stop: the secrets and nonces stay, and no session begins. One rule for each way to build an
-- action.
pub mod Parts
use esloq.Base.{◌≡◌, refl, ◌∙◌, Bool, true, false, Outcome, ok, halted, if◌then◌else◌, List, ℕ}
use esloq.Uart.{Uart}
use esloq.Lock.State.{Machine, State, Command, MsgBuffer, AttributesWriteBuffer}
use esloq.Lock.Monad.{M, ◌>>=◌, pure, lift, get, modify}
use esloq.Lock.Handlers.Session.{in_session}

pub record Quietly (before after : Machine) : Type 0 where
  pub master_nonce : after.master_nonce_eeprom ≡ before.master_nonce_eeprom
  pub session_key : after.session_key ≡ before.session_key
  pub session_nonce : after.session_nonce ≡ before.session_nonce
  pub session : in_session after.state ≡ true → in_session before.state ≡ true

pub Quietly-refl : {m : Machine} → Quietly m m
Quietly-refl = record {
  master_nonce = refl;
  session_key = refl;
  session_nonce = refl;
  session = λ h. h;
}

pub Quietly-trans : {m m' m'' : Machine} → Quietly m m' → Quietly m' m'' → Quietly m m''
Quietly-trans a b = record {
  master_nonce = b.master_nonce ∙ a.master_nonce;
  session_key = b.session_key ∙ a.session_key;
  session_nonce = b.session_nonce ∙ a.session_nonce;
  session = λ h. a.session (b.session h);
}

pub record Quiet {A : Type 0} (x : M A) : Type 0 where
  pub at : (m : Machine) → Quietly m (x m).0

module _ {A : Type 0} where
  pub Quiet-pure : (a : A) → Quiet (pure a)
  Quiet-pure a = record { at = λ m. Quietly-refl }

  pub Quiet-lift : (o : Outcome A) → Quiet (lift o)
  Quiet-lift o = record { at = λ m. Quietly-refl }

  pub Quiet-if : (b : Bool) (x y : M A) → Quiet x → Quiet y → Quiet (if b then x else y)
  Quiet-if true x y qx qy = qx
  Quiet-if false x y qx qy = qy

pub Quiet-modify : (f : Machine → Machine) → ((m : Machine) → Quietly m (f m)) → Quiet (modify f)
Quiet-modify f keeps = record { at = keeps }

pub Quiet-get : {B : Type 0} (f : Machine → M B) → ((m : Machine) → Quiet (f m)) → Quiet (get >>= f)
Quiet-get f rest = record { at = λ m. (rest m).at m }

module _ {A B : Type 0} where
  pub Quiet-bind : (x : M A) (f : A → M B) → Quiet x → ((a : A) → Quiet (f a)) → Quiet (x >>= f)
  Quiet-bind x f first rest = record { at = λ m. by_outcome m (x m).1 refl }
    where
      by_outcome : (m : Machine) (o : Outcome A) → (x m).1 ≡ o → Quietly m ((x >>= f) m).0
      by_outcome m (ok a) e = rw (e, ◌>>=◌) (Quietly-trans (first.at m) ((rest a).at (x m).0))
      by_outcome m (halted s) e = rw (e, ◌>>=◌) (first.at m)

-- What an action may change freely.
pub Quietly-free :
    (m : Machine) (s : State) (buffer : MsgBuffer) (request : ℕ) (address : List ℕ) (u : Uart)
    (cs : List Command) (att : AttributesWriteBuffer)
    → (in_session s ≡ true → in_session m.state ≡ true)
    → Quietly m (record m {
      state = s;
      msg_buf = buffer;
      request = request;
      system_address = address;
      uart = u;
      commands = cs;
      att_write_buffer = att;
    })
Quietly-free m s buffer request address u cs att keeps = record {
  master_nonce = refl;
  session_key = refl;
  session_nonce = refl;
  session = keeps;
}
