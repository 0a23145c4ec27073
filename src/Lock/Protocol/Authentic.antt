-- ===== src/Lock/Protocol/Authentic.antt =====
-- A session is one that a ticket has begun.
use esloq.Base.{ℕ, ◌≤◌, ◌<◌, ◌≡◌, sym, ap, subst, List, Option, some, none, drop, arith}
use mathlib.Core.Option.{some-injective}
use esloq.Crypto.{SecretBox}
use esloq.Nonce.Order.{value}
use esloq.Lock.Protocol.{Session, Protocol, Step, Steps, none_yet, next, opening}

-- A ticket that opens under the master key to the session key, whose number is above `first` and
-- not above `last`.
pub record BegunBy (box : SecretBox) (master key : List ℕ) (first last : ℕ) : Type 0 where
  pub nonce : List ℕ
  pub box_of_key : List ℕ
  pub opens : (opening box box_of_key nonce master).0 ≡ 0
  pub key_is : key ≡ drop 32 (opening box box_of_key nonce master).1
  pub above : first < value nonce
  pub taken : value nonce ≤ last

module _ (box : SecretBox) (master : List ℕ) where
  later_number :
      (key : List ℕ) {first last last' : ℕ}
      → BegunBy box master key first last
      → last ≤ last'
      → BegunBy box master key first last'
  later_number key begun le = record {
    nonce = begun.nonce;
    box_of_key = begun.box_of_key;
    opens = begun.opens;
    key_is = begun.key_is;
    above = begun.above;
    taken = omega (arith, begun.taken, le);
  }

  -- The number of the last ticket has not fallen, and a session has been begun by a ticket.
  pub record Honest (first : ℕ) (p : Protocol) : Type 0 where
    pub grown : first ≤ p.last_ticket
    pub begun : (s : Session) → p.session ≡ some s → BegunBy box master s.key first p.last_ticket

  no_session : {s : Session} {B : Type 0} → ◌≡◌ {A = Option Session} none (some s) → B
  no_session e = cc

  Step-Honest :
      (first : ℕ) {p p' : Protocol} → Honest first p → Step box master p p' → Honest first p'
  Step-Honest first {p} h (Step.spends_ticket number lt) = record {
    grown = omega (arith, h.grown, lt);
    begun = λ s e. no_session e;
  }
  Step-Honest first {p} h (Step.begins nonce c lt opens) = record {
    grown = omega (arith, h.grown, lt);
    begun = λ s e. record {
      nonce = nonce;
      box_of_key = c;
      opens = opens;
      key_is = ap (λ (t : Session). t.key) (sym (some-injective _ _ e));
      above = omega (arith, h.grown, lt);
      taken = omega arith;
    };
  }
  Step-Honest first {p} h (Step.spends_request was number here lt) = record {
    grown = h.grown;
    begun = λ s e.
        subst (λ key. BegunBy box master key first p.last_ticket)
          (ap (λ (t : Session). t.key) (some-injective _ _ e)) (h.begun was here);
  }
  Step-Honest first {p} h (Step.answers_request was nonce c here lt opens) = record {
    grown = h.grown;
    begun = λ s e.
        subst (λ key. BegunBy box master key first p.last_ticket)
          (ap (λ (t : Session). t.key) (some-injective _ _ e)) (h.begun was here);
  }
  Step-Honest first {p} h Step.ends = record { grown = h.grown; begun = λ s e. no_session e }

  pub Steps-Honest :
      (first : ℕ) {p p' : Protocol} → Honest first p → Steps box master p p' → Honest first p'
  Steps-Honest first h none_yet = h
  Steps-Honest first h (next steps step) = Step-Honest first (Steps-Honest first h steps) step
