-- ===== src/Lock/Reset.antt =====
-- The life of a lock over its restarts: the start-up of the C program, which sets the globals of
-- firmware/avr/src/main.c, crypto.c, button.c and uart.c to their initialisers and leaves the EEPROM
-- alone, `main`, the turns of its loop, and the resets that end them.
pub mod Safety
use esloq.Base.{ℕ, ◌≡◌, ◌≢◌, List, [], ◌∷◌, Outcome, ok, halted, Stop, out_of_bounds, replicate}
use esloq.Crypto.{SecretBox}
use esloq.Mcu.{Mcu}
use esloq.Uart.{RxBuffer}
use esloq.Lock.State.{State, Machine, BgLib, no_request}
use esloq.Lock.Loop.{LoopInputs, main_init, main_step}

-- The initialiser of `master_nonce_eeprom`
pub factory_nonce : List ℕ
factory_nonce = replicate 24 0

-- The initialiser of `master_key_eeprom`
pub factory_key : List ℕ
factory_key =
    0 ∷ 1 ∷ 2 ∷ 3 ∷ 4 ∷ 5 ∷ 6 ∷ 7 ∷ 8 ∷ 9 ∷ 10 ∷ 11 ∷ 12 ∷ 13 ∷ 14 ∷ 15 ∷ 16 ∷ 17 ∷ 18 ∷ 19 ∷ 20
    ∷ 21 ∷ 22 ∷ 23 ∷ 24 ∷ 25 ∷ 26 ∷ 27 ∷ 28 ∷ 29 ∷ 30 ∷ 31 ∷ []

-- The initialisers of uart.c
abbrev pub rx_at_start : RxBuffer
rx_at_start = record {
  rxbuffer = replicate 256 0;
  rxbuffer_start = 0;
  rxbuffer_next = 0;
  rxbuffer_size = 0;
}

-- The globals when `main` is called: the registers are what the microcontroller sets them to, the
-- EEPROM is what it was.
unfoldable pub start_up : Mcu → List ℕ → List ℕ → Machine
start_up mcu master_nonce master_key = record {
  state = State.reset;
  msg_buf = record { len = 0; bytes = replicate 72 0 };
  system_address = replicate 6 0;
  att_write_buffer = record { section_sent = 0; bytes = replicate 41 0 };
  session_nonce = replicate 24 0;
  session_key = replicate 32 0;
  master_nonce_eeprom = master_nonce;
  master_key_eeprom = master_key;
  request = no_request;
  uart = record { mcu = mcu; rx = rx_at_start; wire = [] };
  commands = [];
}

-- A reset of the machine, up to the loop of `main`.
unfoldable pub reboot : Mcu → Machine → Machine
unfolding start_up
reboot mcu m = main_init (start_up mcu m.master_nonce_eeprom m.master_key_eeprom)

-- One turn of the loop: it comes to its end, or it stops and the machine is reset. An access outside
-- an object is undefined: a `main_step` that ends in `out_of_bounds` is no turn, and what is proved of
-- turns says nothing of a machine after it.
pub data Turn (box : SecretBox) (bg : BgLib) (inputs : LoopInputs) (m : Machine)
    : Machine → Type 0 where
  goes_on : {m' : Machine} → main_step box bg inputs m ≡ (m', ok tt) → Turn box bg inputs m m'
  restarts :
      {m' : Machine} (stop : Stop) (mcu : Mcu)
      → main_step box bg inputs m ≡ (m', halted stop)
      → stop ≢ out_of_bounds
      → Turn box bg inputs m (reboot mcu m')

-- What a machine comes to by turns and losses of power. A start-up keeps nothing but the EEPROM, which
-- a turn writes at most once, in one step of the model: a loss of power inside a turn finds it as it
-- was before the turn (`loses_power`) or as the turn leaves it (`loses_power_late`), also where the
-- turn would have stopped later, in whatever way. A loss inside the write of its 24 bytes is not
-- covered.
pub data Later (box : SecretBox) (bg : BgLib) (m : Machine) : Machine → Type 0 where
  now : Later box bg m m
  turns :
      {m' m'' : Machine}
      → Later box bg m m'
      → (inputs : LoopInputs) → Turn box bg inputs m' m''
      → Later box bg m m''
  loses_power : {m' : Machine} → Later box bg m m' → (mcu : Mcu) → Later box bg m (reboot mcu m')
  loses_power_late :
      {m' : Machine}
      → Later box bg m m'
      → (inputs : LoopInputs) (mcu : Mcu)
      → Later box bg m (reboot mcu (main_step box bg inputs m').0)
