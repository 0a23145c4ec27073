-- ===== src/Exchange/Cuts.antt =====
-- A message that is written in several values, and what the lock is when it has processed it.
use esloq.Base.{
  ℕ, ◌+◌, ◌-◌, ◌≡◌, refl, ◌∙◌, ap, subst, List, [], ◌∷◌, ◌++◌, length, take, drop, arith, ok,
  Outcome, length-drop, append_assoc, take-append-drop,
}
use esloq.Crypto.{SecretBox, IsSecretBox}
use esloq.Nonce.Order.{AllBytes}
use esloq.Lock.Fsm.{FsmInputs, fsm_process}
use esloq.Lock.Fsm.Steady.{fsm_process-Steady}
use esloq.Lock.Handlers.Buffer.{receive_parts, joined}
use esloq.Lock.Monad.{◌>>◌}
use esloq.Lock.State.{Machine, BgLib}
use esloq.Lock.Steady.{Advances-bind}
use esloq.Lock.WellFormed.{IsWellFormed}
use esloq.Exchange.Message.{receive_parts-Steady}

-- The values that a message is cut into, of these lengths but for the last, which is what is left.
abbrev pub fronts : List ℕ → List ℕ → List (List ℕ)
fronts [] message = []
fronts (n ∷ cuts) message = take n message ∷ fronts cuts (drop n message)

abbrev pub rest : List ℕ → List ℕ → List ℕ
rest [] message = message
rest (n ∷ cuts) message = rest cuts (drop n message)

abbrev pub total : List ℕ → ℕ
total [] = 0
total (n ∷ cuts) = n + total cuts

pub joins : (cuts message : List ℕ) → joined (fronts cuts message) ++ rest cuts message ≡ message
joins [] message = refl
joins (n ∷ cuts) message =
    append_assoc (take n message) (joined (fronts cuts (drop n message)))
      (rest cuts (drop n message))
    ∙ ap (λ l. take n message ++ l) (joins cuts (drop n message))
    ∙ take-append-drop n message

pub length-rest : (cuts message : List ℕ) → length (rest cuts message) ≡ length message - total cuts
length-rest [] message = omega arith
length-rest (n ∷ cuts) message =
    omega (arith, length-rest cuts (drop n message), length-drop n message)

-- A machine that has processed a message is well-formed.
pub ran-IsWellFormed :
    (box : SecretBox) (doc : IsSecretBox box) (bg : BgLib) (inputs : FsmInputs)
    (parts : List (List ℕ)) (last : List ℕ) (m m' : Machine)
    → IsWellFormed m
    → AllBytes (joined parts ++ last)
    → (receive_parts (parts ++ (last ∷ [])) >> fsm_process box bg inputs) m ≡ (m', ok tt)
    → IsWellFormed m'
ran-IsWellFormed box doc bg inputs parts last m m' wf bytes runs =
    subst (λ (r : Machine × Outcome (Unit {0})). IsWellFormed r.0) runs
      (Advances-bind (receive_parts (parts ++ (last ∷ []))) (λ _. fsm_process box bg inputs) m m
        ((receive_parts-Steady parts last bytes).at m wf)
        (λ _. fsm_process-Steady box doc bg inputs)).well_formed
