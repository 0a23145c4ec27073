-- ===== src/Tests/Parts.antt =====
-- The parts below the lock's own logic: nonces, encryption, receive buffer, UART, motor, pins.
use esloq.Mcu.{Mcu}
use esloq.Base.{
  some, ap, ℕ, ◌+◌, ◌≡◌, refl, List, [], ◌∷◌, ◌++◌, Outcome, ok, halted, out_of_bounds, replicate,
  length, arith, bit_is_set, false, true,
}
use esloq.Crypto.{crypto_auth_encrypt, crypto_auth_decrypt}
use esloq.Crypto.RoundTrip.{crypto_auth_decrypt-encrypt}
use esloq.Motor.{dc_motor_turn_cw, dc_motor_turn_ccw, dc_motor_halt, dc_motor_init}
use esloq.Motor.Pins.{Drives, dc_motor_Drives}
use esloq.Nonce.{is_valid_ticket_nonce, is_valid_session_nonce, increment_array}
use esloq.Nonce.Order.{value, AllBytes, is_valid_nonce-eq-value}
use esloq.Nonce.Increment.{increment_array-value, increment_array-overflow}
use esloq.Uart.{
  usart_rx, take_byte, take_byte_interrupted, arrive, uart_rx, uart_tx, send_byte, Slot, RxStatus,
  TxStatus, Uart, Window, RxBuffer, cnt_threshold, send_bytes, wait_clear, wait_empty,
}
use esloq.Timer.{timer_16bit_start, timer_16bit_stop}
use esloq.Uart.Queue.{contents, IsValid, take_byte_interrupted-lags, usart_rx-overflow}
use esloq.Uart.Receive.{uart_rx-Receives, Receives}
use esloq.Uart.Progress.{uart_tx-returns}
use esloq.Uart.Transmit.{uart_tx-Frames, Frames}
use esloq.Lock.Advert.{sr_data}
use esloq.Lock.Advert.Hex.{read_byte, sr_data-address}
use esloq.Lock.Board.{ble_hard_reset_init, ble_hard_reset}
use esloq.Lock.Board.Pins.{ble_hard_reset-line}
use esloq.Spi.{Transfer}
use esloq.Wrappers.{jni_encrypt, jni_decrypt, auth_encrypt, auth_decrypt}
use esloq.Wrappers.Agree.{wrappers-agree}
use esloq.Tests.Setup.{
  plain_box, plain_box-IsSecretBox, board, wrapped_rx, wrapped_rx-IsValid, uart, clear_window,
  bytes_checked, nonce_five, zero_nonce,
}

is_valid_nonce-eq-value_example :
    (is_valid_ticket_nonce nonce_five zero_nonce ≡ ok 1)
    × (is_valid_session_nonce nonce_five zero_nonce ≡ ok 1)
is_valid_nonce-eq-value_example =
    is_valid_nonce-eq-value nonce_five zero_nonce (bytes_checked nonce_five refl)
      (bytes_checked zero_nonce refl) refl refl

abbrev carrying : List ℕ
carrying = 1 ∷ 255 ∷ 255 ∷ []

increment_array-value_example :
    (array' : List ℕ) × (increment_array carrying 3 ≡ ok array')
    × (value array' ≡ value carrying + 1)
    × (length array' ≡ 3)
    × AllBytes array'
increment_array-value_example =
    increment_array-value carrying (bytes_checked carrying refl) (omega arith)
      (λ e. absurd (omega (arith, ap value e)))

increment_array-overflow_example : increment_array (replicate 24 255) 24 ≡ halted out_of_bounds
increment_array-overflow_example = increment_array-overflow 24 (omega arith)

crypto_auth_decrypt-encrypt_example :
    (c : List ℕ) × (crypto_auth_encrypt plain_box (4 ∷ []) 1 nonce_five (replicate 32 2)
      ≡ ok (0, c))
    × (length c ≡ 17)
    × (crypto_auth_decrypt plain_box c 17 nonce_five (replicate 32 2) ≡ ok (0, 4 ∷ []))
crypto_auth_decrypt-encrypt_example =
    crypto_auth_decrypt-encrypt plain_box plain_box-IsSecretBox (4 ∷ []) nonce_five (replicate 32 2)
      (omega arith) refl refl

-- 8 arrives inside the statement, then 9.
take_byte_interrupted-lags_example :
    ((last : ℕ) × (contents (arrive (9 ∷ []) (take_byte_interrupted 8 wrapped_rx).1) ++ (last ∷ [])
        ≡ contents (take_byte wrapped_rx).1 ++ (8 ∷ 9 ∷ [])))
    × ¬ IsValid (arrive (9 ∷ []) (take_byte_interrupted 8 wrapped_rx).1)
take_byte_interrupted-lags_example =
    take_byte_interrupted-lags 8 (9 ∷ []) wrapped_rx wrapped_rx-IsValid (omega arith) (omega arith)

abbrev full_rx : RxBuffer
full_rx = record {
  rxbuffer = replicate 256 3;
  rxbuffer_start = 10;
  rxbuffer_next = 9;
  rxbuffer_size = 255;
}

usart_rx-overflow_example : contents (usart_rx 8 full_rx) ≡ []
usart_rx-overflow_example =
    usart_rx-overflow 8 full_rx
      (record {
        full_length = refl;
        start_in = omega arith;
        size_in = omega arith;
        next_follows = refl;
      })
      refl

-- One byte in the first turn, two in the second, then the timeout.
abbrev slots : List Slot
slots =
    record { arrivals = 5 ∷ []; timer = 0 }
    ∷ record { arrivals = 6 ∷ 7 ∷ []; timer = 60000 }
    ∷ record { arrivals = []; timer = 60000 }
    ∷ record { arrivals = []; timer = 60000 }
    ∷ record { arrivals = []; timer = 60000 }
    ∷ []

uart_rx-Receives_example :
    (result : RxStatus × List ℕ × Uart) × (uart_rx 4 4 100 slots uart ≡ ok result)
    × Receives 4 slots [] (contents uart.rx) result
uart_rx-Receives_example =
    uart_rx-Receives 4 4 100 slots uart (omega arith) (omega arith)
      (record {
        full_length = refl;
        start_in = omega arith;
        size_in = omega arith;
        next_follows = refl;
      })
      (omega arith) (unfold cnt_threshold in omega arith)

dc_motor_Drives_example :
    Drives true false board.portd (dc_motor_turn_cw board).portd
    × Drives false true board.portd (dc_motor_turn_ccw board).portd
    × Drives false false board.portd (dc_motor_halt board).portd
    × Drives false false board.portd (dc_motor_init board).portd
dc_motor_Drives_example = dc_motor_Drives board (omega arith)

sr_data-address_example :
    (length (sr_data 1 2 3 0xab 0xcd 0xef) ≡ 26)
    × (read_byte (sr_data 1 2 3 0xab 0xcd 0xef) 2 ≡ 0xef)
    × (read_byte (sr_data 1 2 3 0xab 0xcd 0xef) 5 ≡ 0xcd)
    × (read_byte (sr_data 1 2 3 0xab 0xcd 0xef) 8 ≡ 0xab)
    × (read_byte (sr_data 1 2 3 0xab 0xcd 0xef) 11 ≡ 3)
    × (read_byte (sr_data 1 2 3 0xab 0xcd 0xef) 14 ≡ 2)
    × (read_byte (sr_data 1 2 3 0xab 0xcd 0xef) 17 ≡ 1)
sr_data-address_example =
    sr_data-address 1 2 3 0xab 0xcd 0xef (omega arith) (omega arith) (omega arith) (omega arith)
      (omega arith) (omega arith)

ble_hard_reset-line_example :
    (bit_is_set (ble_hard_reset_init board).ddrd 3 ≡ false)
    × (bit_is_set (ble_hard_reset_init board).portd 3 ≡ false)
    × (bit_is_set (ble_hard_reset board).0.portd 3 ≡ true)
    × (bit_is_set (ble_hard_reset board).1.portd 3 ≡ false)
ble_hard_reset-line_example = ble_hard_reset-line board (omega arith) (omega arith)

abbrev windows : List Window
windows = replicate 3 clear_window

-- Length, then two bytes and one.
abbrev run : Outcome (TxStatus × List Window × Uart)
run = uart_tx 2 (7 ∷ 8 ∷ []) 1 (9 ∷ []) 100 (clear_window ∷ windows) uart

abbrev result_of : Outcome (TxStatus × List Window × Uart) → TxStatus × List Window × Uart
result_of (ok r) = r
result_of (halted s) = (TxStatus.timed_out, [], uart)

run_ends : run ≡ ok (result_of run)
unfolding uart_tx send_bytes send_byte wait_clear wait_empty cnt_threshold arrive timer_16bit_start
    timer_16bit_stop
run_ends = refl

uart_tx-Frames_example :
    (head : TxStatus) × (u0 : Uart) × (send_byte 3 100 clear_window uart ≡ ok (head, u0))
    × Frames 2 (7 ∷ 8 ∷ []) 1 (9 ∷ []) head (result_of run).0 [] (result_of run).2.wire
uart_tx-Frames_example =
    uart_tx-Frames 2 (7 ∷ 8 ∷ []) 1 (9 ∷ []) 100 clear_window windows uart (result_of run) run_ends

wrappers-agree_example :
    (c : List ℕ) × (crypto_auth_encrypt plain_box (4 ∷ 5 ∷ []) 2 nonce_five (replicate 32 2)
      ≡ ok (0, c))
    × (jni_encrypt plain_box (4 ∷ 5 ∷ []) nonce_five (replicate 32 2) ≡ c)
    × (auth_encrypt plain_box (4 ∷ 5 ∷ []) nonce_five (replicate 32 2) ≡ ok (some c))
    × (jni_decrypt plain_box c nonce_five (replicate 32 2) ≡ 4 ∷ 5 ∷ [])
    × (auth_decrypt plain_box c nonce_five (replicate 32 2) ≡ ok (some (4 ∷ 5 ∷ [])))
wrappers-agree_example =
    wrappers-agree plain_box plain_box-IsSecretBox (4 ∷ 5 ∷ []) nonce_five (replicate 32 2)
      (omega arith) (omega arith) refl refl

uart_tx-returns_example :
    (r : TxStatus × List Window × Uart) × (uart_tx 2
        (7 ∷ 8 ∷ [])
        1
        (9 ∷ [])
        100
        (clear_window ∷ windows)
        uart
      ≡ ok r)
uart_tx-returns_example =
    uart_tx-returns 2 (7 ∷ 8 ∷ []) 1 (9 ∷ []) 100 clear_window windows uart (omega arith)
      (omega arith) (omega arith) refl

abbrev at_once : Transfer
at_once = record { complete = true ∷ []; reply = 0 }
