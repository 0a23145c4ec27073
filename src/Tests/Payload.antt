-- ===== src/Tests/Payload.antt =====
-- A packet that announces more than the buffer of `ble_process_packet` holds.
use esloq.Base.{ℕ, ◌≡◌, refl, List, [], ◌∷◌, ◌++◌, replicate, arith, halted, out_of_bounds}
use esloq.Uart.{Uart, Slot, cnt_threshold}
use esloq.Lock.Loop.{LoopInputs, ble_process_packet}
use esloq.Lock.Loop.Overflow.{ble_process_packet-overflow}
use esloq.Lock.State.{State, Machine}
use esloq.Tests.Setup.{bg, machine, long_rotation}

-- The header of an event, whose second byte is 200, and 76 bytes of its payload.
abbrev packet : List ℕ
packet = 128 ∷ 200 ∷ 0 ∷ 0 ∷ replicate 76 7

abbrev idle : Machine
idle = machine State.reset (replicate 72 0)

abbrev holding_packet : Machine
holding_packet = record idle {
  uart = record idle.uart {
    rx = record {
      rxbuffer = packet ++ replicate 176 0;
      rxbuffer_start = 0;
      rxbuffer_next = 80;
      rxbuffer_size = 80;
    };
  };
}

abbrev late : Slot
late = record { arrivals = []; timer = 65535 }

abbrev taking : LoopInputs
taking = record {
  fsm = record { windows = []; acsr = 0; pind = 0; rotation = long_rotation };
  header_slots = replicate 4 late;
  body_slots = replicate 61 late;
  stack = replicate 60 0;
  handler_windows = [];
  presses = [];
  presses_turning = [];
  rotation = long_rotation;
}

ble_process_packet-overflow_example :
    (u : Uart) × (ble_process_packet bg taking holding_packet
      ≡ (record holding_packet { uart = u }, halted out_of_bounds))
unfolding cnt_threshold
ble_process_packet-overflow_example =
    ble_process_packet-overflow bg taking 128 200 (0 ∷ 0 ∷ replicate 76 7) holding_packet
      (record {
        full_length = refl;
        start_in = omega arith;
        size_in = omega arith;
        next_follows = refl;
      })
      refl (omega arith) (omega arith) (omega arith) (omega arith) (omega arith) (omega arith)
