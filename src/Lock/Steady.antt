-- ===== src/Lock/Steady.antt =====
-- What every action of the lock keeps, whether it returns or stops: the sizes of the globals, the
-- master key, and that the last master nonce never falls. One rule for each way to build an action.
use esloq.Base.{
  ℕ, ◌≤◌, ◌≡◌, refl, ◌∙◌, List, Bool, true, false, Outcome, ok, halted, Option, some, in_bounds,
  in_bounds-eq-ok, length, arith, if◌then◌else◌,
}
use esloq.Nonce.Order.{value, AllBytes}
use esloq.Uart.{Uart}
use esloq.Lock.State.{Machine, State, Command}
use esloq.Lock.Monad.{M, ◌>>=◌, pure, lift, get, modify}
use esloq.Lock.WellFormed.{IsWellFormed}

pub record Advances (before after : Machine) : Type 0 where
  pub well_formed : IsWellFormed after
  pub nonce_kept : value before.master_nonce_eeprom ≤ value after.master_nonce_eeprom
  pub key_kept : after.master_key_eeprom ≡ before.master_key_eeprom

pub Advances-refl : {m : Machine} → IsWellFormed m → Advances m m
Advances-refl wf = record { well_formed = wf; nonce_kept = omega arith; key_kept = refl }

pub Advances-trans : {m m' m'' : Machine} → Advances m m' → Advances m' m'' → Advances m m''
Advances-trans a b = record {
  well_formed = b.well_formed;
  nonce_kept = omega (arith, a.nonce_kept, b.nonce_kept);
  key_kept = b.key_kept ∙ a.key_kept;
}

-- The action leads from a well-formed machine to an advanced one.
pub record Steady {A : Type 0} (x : M A) : Type 0 where
  pub at : (m : Machine) → IsWellFormed m → Advances m (x m).0

module _ {A : Type 0} where
  pub Steady-pure : (a : A) → Steady (pure a)
  Steady-pure a = record { at = λ m wf. Advances-refl wf }

  pub Steady-lift : (o : Outcome A) → Steady (lift o)
  Steady-lift o = record { at = λ m wf. Advances-refl wf }

  pub Steady-if : (b : Bool) (x y : M A) → Steady x → Steady y → Steady (if b then x else y)
  Steady-if true x y sx sy = sx
  Steady-if false x y sx sy = sy

-- The actions that leave the EEPROM alone keep the nonce.
pub Steady-modify :
    (f : Machine → Machine)
    → ((m : Machine) → IsWellFormed m → Advances m (f m))
    → Steady (modify f)
Steady-modify f keeps = record { at = keeps }

module _ {A B : Type 0} where
  pub Advances-bind :
      (x : M A) (f : A → M B) (m m' : Machine)
      → Advances m (x m').0
      → ((a : A) → Steady (f a))
      → Advances m ((x >>= f) m').0
  Advances-bind x f m m' first rest = by_outcome (x m').1 refl
    where
      by_outcome : (o : Outcome A) → (x m').1 ≡ o → Advances m ((x >>= f) m').0
      by_outcome (ok a) e =
          rw (e, ◌>>=◌) (Advances-trans first ((rest a).at (x m').0 first.well_formed))
      by_outcome (halted s) e = rw (e, ◌>>=◌) first

  pub Steady-bind : (x : M A) (f : A → M B) → Steady x → ((a : A) → Steady (f a)) → Steady (x >>= f)
  Steady-bind x f first rest = record { at = λ m wf. Advances-bind x f m m (first.at m wf) rest }

-- The steps of a chain from `m'` on, when `m` led to `m'`.
module _ {A B : Type 0} (m m' : Machine) where
  pub Advances-lift :
      (o : Outcome A) (f : A → M B)
      → Advances m m'
      → ((a : A) → o ≡ ok a → Advances m (f a m').0)
      → Advances m ((lift o >>= f) m').0
  Advances-lift (ok a) f here rest = rest a refl
  Advances-lift (halted s) f here rest = here

  pub Advances-in_bounds :
      (o : Option A) (f : A → M B)
      → Advances m m'
      → ((a : A) → o ≡ some a → Advances m (f a m').0)
      → Advances m ((lift (in_bounds o) >>= f) m').0
  Advances-in_bounds o f here rest =
      Advances-lift (in_bounds o) f here (λ a e. rest a (in_bounds-eq-ok o e))

-- What has been read stays known to the rest of a chain.
module _ {A B : Type 0} where
  pub Steady-lifted :
      (o : Outcome A) (f : A → M B) → ((a : A) → o ≡ ok a → Steady (f a)) → Steady (lift o >>= f)
  Steady-lifted o f rest = record {
    at = λ m wf. Advances-lift m m o f (Advances-refl wf) (λ a e. (rest a e).at m wf);
  }

  pub Steady-in_bounds :
      (o : Option A) (f : A → M B)
      → ((a : A) → o ≡ some a → Steady (f a))
      → Steady (lift (in_bounds o) >>= f)
  Steady-in_bounds o f rest = Steady-lifted (in_bounds o) f (λ a e. rest a (in_bounds-eq-ok o e))

pub Steady-get :
    {B : Type 0} (f : Machine → M B)
    → ((m : Machine) → IsWellFormed m → Steady (f m))
    → Steady (get >>= f)
Steady-get f rest = record { at = λ m wf. (rest m wf).at m wf }

-- What an action may change freely: the state, the request of the buttons, the address, the UART,
-- the commands given, and the count of the sections sent.
pub free_change :
    (m : Machine) (s : State) (request : ℕ) (address : List ℕ) (u : Uart) (cs : List Command)
    (section : ℕ)
    → IsWellFormed m
    → Advances m (record m {
      state = s;
      request = request;
      system_address = address;
      uart = u;
      commands = cs;
      att_write_buffer = record { section_sent = section; bytes = m.att_write_buffer.bytes };
    })
free_change m s request address u cs section wf = record {
  well_formed = record {
    msg_fits = wf.msg_fits;
    msg_room = wf.msg_room;
    msg_bytes = wf.msg_bytes;
    nonce_room = wf.nonce_room;
    nonce_bytes = wf.nonce_bytes;
    key_room = wf.key_room;
    master_nonce_room = wf.master_nonce_room;
    master_nonce_bytes = wf.master_nonce_bytes;
    master_key_room = wf.master_key_room;
    att_room = wf.att_room;
  };
  nonce_kept = omega arith;
  key_kept = refl;
}

-- The buffers and the session may change to what has the right size.
pub buffers_change :
    (m : Machine) (s : State) (len : ℕ) (bytes nonce key rsp : List ℕ)
    → IsWellFormed m
    → len ≤ 72
    → length bytes ≡ 72
    → AllBytes bytes
    → length nonce ≡ 24
    → AllBytes nonce
    → length key ≡ 32
    → length rsp ≡ 41
    → Advances m (record m {
      state = s;
      msg_buf = record { len = len; bytes = bytes };
      session_nonce = nonce;
      session_key = key;
      att_write_buffer = record { section_sent = m.att_write_buffer.section_sent; bytes = rsp };
    })
buffers_change m s len bytes nonce key rsp wf fits room all_bytes nonce24 nonce_bytes key32 rsp41 =
    record {
      well_formed = record {
        msg_fits = fits;
        msg_room = room;
        msg_bytes = all_bytes;
        nonce_room = nonce24;
        nonce_bytes = nonce_bytes;
        key_room = key32;
        master_nonce_room = wf.master_nonce_room;
        master_nonce_bytes = wf.master_nonce_bytes;
        master_key_room = wf.master_key_room;
        att_room = rsp41;
      };
      nonce_kept = omega arith;
      key_kept = refl;
    }

-- A nonce that is not smaller may be stored in the EEPROM.
pub nonce_change :
    (m : Machine) (nonce : List ℕ)
    → IsWellFormed m
    → length nonce ≡ 24
    → AllBytes nonce
    → value m.master_nonce_eeprom ≤ value nonce
    → Advances m (record m { master_nonce_eeprom = nonce })
nonce_change m nonce wf room small up = record {
  well_formed = record {
    msg_fits = wf.msg_fits;
    msg_room = wf.msg_room;
    msg_bytes = wf.msg_bytes;
    nonce_room = wf.nonce_room;
    nonce_bytes = wf.nonce_bytes;
    key_room = wf.key_room;
    master_nonce_room = room;
    master_nonce_bytes = small;
    master_key_room = wf.master_key_room;
    att_room = wf.att_room;
  };
  nonce_kept = up;
  key_kept = refl;
}
