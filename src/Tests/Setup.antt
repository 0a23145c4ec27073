-- ===== src/Tests/Setup.antt =====
-- Concrete inputs: a box that satisfies the documented laws, a board at reset, a BGLib with packets
-- of one byte, and machines that hold a ticket or a request.
use esloq.Base.{
  ℕ, ◌%◌, map, ◌≤◌, ◌≡◌, refl, sym, ◌∙◌, ap, List, [], ◌∷◌, ◌++◌, Bool, true, ◌&&◌, ltb, ◌==◌,
  if◌then◌else◌, Option, none, some, replicate, take, drop, length, arith, take-all,
  take-append-drop, length-take, length-drop,
}
use esloq.Crypto.{SecretBox, IsSecretBox}
use esloq.Mcu.{Mcu}
use esloq.Motor.{Rotation}
use esloq.Motor.Wait.{IsLongEnough}
use esloq.Nonce.Order.{AllBytes}
use esloq.Uart.{RxBuffer, Uart, Window}
use esloq.Uart.Queue.{IsValid}
use esloq.Lock.State.{
  State, Machine, BgLib, Message, evt_connection_status, evt_attributes_value, lock_receive,
}
use esloq.Lock.WellFormed.{IsWellFormed}

-- The tag of this box is a byte 7, 16 times; only the first is looked at.
abbrev tag_code : List ℕ → ℕ
tag_code [] = 1
tag_code (b ∷ bs) = if b == 7 then 0 else 1

abbrev pub plain_box : SecretBox
plain_box = record {
  secretbox = λ m n k. (0, take (length m) (replicate 16 0 ++ (replicate 16 7 ++ drop 32 m)));
  secretbox_open = λ c n k. (tag_code (drop 16 c), take (length c) (replicate 32 0 ++ drop 32 c));
}

sealed_lem :
    (m : List ℕ)
    → 32 ≤ length m
    → take (length m) (replicate 16 0 ++ (replicate 16 7 ++ drop 32 m))
      ≡ replicate 16 0 ++ (replicate 16 7 ++ drop 32 m)
sealed_lem m long =
    take-all (length m) (replicate 16 0 ++ (replicate 16 7 ++ drop 32 m))
      (omega (arith, length-drop 32 m))

pub plain_box-IsSecretBox : IsSecretBox plain_box
plain_box-IsSecretBox = record {
  length-secretbox = λ m n k. omega (
    arith,
    length-take (length m) (replicate 16 0 ++ (replicate 16 7 ++ drop 32 m)),
    length-drop 32 m,
  );
  length-secretbox_open = λ c n k.
      omega (arith, length-take (length c) (replicate 32 0 ++ drop 32 c), length-drop 32 c);
  secretbox_code = λ m n k long zeros. refl;
  secretbox_zeros = λ m n k long zeros. ap (take 16) (sealed_lem m long);
  secretbox_open-secretbox = λ m n k long zeros.
      ap (λ c. plain_box.secretbox_open c n k) (sealed_lem m long) ∙ (λ i. (
        0,
        (take-all (length (replicate 16 0 ++ (replicate 16 7 ++ drop 32 m)))
                (replicate 32 0 ++ drop 32 m) (omega arith)
              ∙ ap (λ p. p ++ drop 32 m) (sym zeros)
              ∙ take-append-drop 32 m)
            i,
      ));
}

abbrev pub bytes_below : List ℕ → Bool
bytes_below [] = true
bytes_below (x ∷ xs) = ltb x 256 && bytes_below xs

pub bytes_checked : (xs : List ℕ) → bytes_below xs ≡ true → AllBytes xs
bytes_checked [] h = tt
bytes_checked (x ∷ xs) h = (ground arith, bytes_checked xs (ground arith))

-- All registers at 0, and an empty receive buffer.
abbrev pub board : Mcu
board = record {
  portb = 0;
  ddrb = 0;
  portc = 0;
  ddrc = 0;
  portd = 0;
  ddrd = 0;
  acsr = 0;
  adcsra = 0;
  adcsrb = 0;
  admux = 0;
  mcusr = 0;
  eimsk = 0;
  pcicr = 0;
  pcmsk1 = 0;
  ucsr0b = 0;
  spcr = 0;
  ubrr0h = 0;
  ubrr0l = 0;
  tccr0b = 0;
  tcnt0 = 0;
  timsk0 = 0;
  tccr1b = 0;
  tcnt1 = 0;
  timer_8bit_ovf = 0;
  driven = [];
}

-- A buffer in which two bytes wait, across the end of the array.
abbrev pub wrapped_rx : RxBuffer
wrapped_rx = record {
  rxbuffer = replicate 256 3;
  rxbuffer_start = 255;
  rxbuffer_next = 1;
  rxbuffer_size = 2;
}

pub wrapped_rx-IsValid : IsValid wrapped_rx
wrapped_rx-IsValid = record {
  full_length = refl;
  start_in = omega arith;
  size_in = omega arith;
  next_follows = refl;
}

abbrev pub empty_rx : RxBuffer
empty_rx = record {
  rxbuffer = replicate 256 0;
  rxbuffer_start = 0;
  rxbuffer_next = 0;
  rxbuffer_size = 0;
}

abbrev pub uart : Uart
uart = record { mcu = board; rx = empty_rx; wire = [] }

-- A byte that is sent at once.
abbrev pub clear_window : Window
clear_window = record {
  arrivals = [];
  polls = record { clear = true; timer = 0 } ∷ [];
  empty = true ∷ [];
}

-- A rotation that no jam ends: 1300 overflows during the second poll.
abbrev pub long_rotation : Rotation
long_rotation = record {
  during_delay = 40;
  polls = record { overflows = 0; sense = true } ∷ record { overflows = 1300; sense = true } ∷ [];
  arrivals = [];
}

pub long_rotation-IsLongEnough : IsLongEnough long_rotation
long_rotation-IsLongEnough = record {
  early = omega arith;
  no_wrap = (omega arith, (omega arith, tt));
  late = omega arith;
}

-- Packets of one byte; the last byte of a header tells the messages apart.
abbrev message_of : List ℕ → Option (List ℕ → Message)
message_of (a ∷ b ∷ c ∷ d ∷ []) =
    if d == 1
    then some (λ payload. evt_connection_status 5)
    else if d == 2
    then some (λ payload. evt_attributes_value lock_receive b (map (λ v. v % 256) (take b payload)))
    else none
message_of xs = none

abbrev pub bg : BgLib
bg = record { data1 = λ c. 7 ∷ []; data2 = λ c. []; get_msg_hdr = message_of }

abbrev pub nonce_five : List ℕ
nonce_five = replicate 23 0 ++ (5 ∷ [])

-- Nonce 5, tag and key; nonce 5 and no tag; nonce 5, tag and the request 1.
abbrev pub good_ticket : List ℕ
good_ticket = nonce_five ++ (replicate 16 7 ++ replicate 32 9)

abbrev pub forged_message : List ℕ
forged_message = nonce_five ++ replicate 48 0

abbrev pub good_request : List ℕ
good_request = nonce_five ++ (replicate 16 7 ++ (1 ∷ replicate 31 0))

-- The greatest nonce, and no tag.
abbrev pub last_ticket : List ℕ
last_ticket = replicate 24 255 ++ replicate 48 0

-- A machine with these bytes in its buffer, and these last nonces of a ticket and of the session.
abbrev pub machine_after : List ℕ → List ℕ → State → List ℕ → Machine
machine_after master session state' bytes = record {
  state = state';
  msg_buf = record { len = 0; bytes = bytes };
  system_address = replicate 6 0;
  att_write_buffer = record { section_sent = 0; bytes = replicate 41 0 };
  session_nonce = session;
  session_key = replicate 32 2;
  master_nonce_eeprom = master;
  master_key_eeprom = replicate 32 1;
  request = 255;
  uart = uart;
  commands = [];
}

abbrev pub zero_nonce : List ℕ
zero_nonce = replicate 24 0

abbrev pub machine : State → List ℕ → Machine
machine = machine_after zero_nonce zero_nonce

pub machine-IsWellFormed :
    (master session : List ℕ) (s : State) (bytes : List ℕ)
    → length bytes ≡ 72
    → bytes_below bytes ≡ true
    → length master ≡ 24
    → bytes_below master ≡ true
    → length session ≡ 24
    → bytes_below session ≡ true
    → IsWellFormed (machine_after master session s bytes)
machine-IsWellFormed master session s bytes e b em bm es bs = record {
  msg_fits = omega arith;
  msg_room = e;
  msg_bytes = bytes_checked bytes b;
  nonce_room = es;
  nonce_bytes = bytes_checked session bs;
  key_room = refl;
  master_nonce_room = em;
  master_nonce_bytes = bytes_checked master bm;
  master_key_room = refl;
  att_room = refl;
}
