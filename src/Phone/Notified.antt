-- ===== src/Phone/Notified.antt =====
-- What the phone makes of the writes that the lock has commanded: the Bluetooth module notifies it of
-- the value of each write to the attribute of the responses, in order.
use esloq.Base.{
  ℕ, ◌≡◌, ap, List, [], ◌∷◌, ◌++◌, length, none, take, drop, arith, ◌==◌, if◌then◌else◌, Option,
  take-all, length-drop,
}
use esloq.Crypto.{SecretBox}
use esloq.Lock.State.{
  Command, system_address_get, gap_set_adv_parameters, gap_set_adv_data, gap_set_mode,
  attributes_write, lock_transmit,
}
use esloq.Lock.Handlers.Writes.{section_write}
use esloq.Phone.{Phone, Tried, gave, LockResponseCode, handle_message}
use esloq.Phone.Reading.{read_sections}

-- The values that the commands, latest first, write to the attribute of the responses, oldest first.
pub notified : List Command → List (List ℕ)
notified [] = []
notified (attributes_write attribute off len section ∷ cs) =
    let earlier = notified cs in
    if attribute == lock_transmit then earlier ++ (section ∷ []) else earlier
notified (system_address_get ∷ cs) = notified cs
notified (gap_set_adv_parameters low high channels ∷ cs) = notified cs
notified (gap_set_adv_data response len bytes ∷ cs) = notified cs
notified (gap_set_mode discoverable connectable ∷ cs) = notified cs

-- The phone handles the values one after the other; `filler` follows the last one.
pub read_values :
    SecretBox → List ℕ → List (List ℕ) → Phone → Phone × Tried (Option LockResponseCode)
read_values box filler [] phone = (phone, gave none)
read_values box filler (value ∷ []) phone = handle_message box (value ++ filler) phone
read_values box filler (value ∷ next ∷ values) phone =
    read_values box filler (next ∷ values) (handle_message box value phone).0

-- The commands that carry a response, latest first.
abbrev pub response_writes : List ℕ → List Command
response_writes rsp = section_write rsp 40 1 ∷ section_write rsp 20 20 ∷ section_write rsp 0 20 ∷ []

-- The values of these commands are the sections of the response.
pub read_values_lem :
    (box : SecretBox) (rsp filler : List ℕ) (phone : Phone)
    → length rsp ≡ 41
    → read_values box filler (notified (response_writes rsp)) phone
      ≡ read_sections box rsp filler phone
unfolding notified read_values
read_values_lem box rsp filler phone full =
    ap
      (λ last.
        let phone1 = (handle_message box (take 20 rsp) phone).0 in
        handle_message box (last ++ filler) (handle_message box (take 20 (drop 20 rsp)) phone1).0)
      (take-all 1 (drop 40 rsp) (omega (arith, length-drop 40 rsp)))
