-- ===== src/Tests/Protocol.antt =====
-- A ticket that a turn of the main loop takes, and the session that it begins.
use esloq.Base.{[], ◌∷◌, replicate}
use esloq.Lock.State.{State, Machine}
use esloq.Lock.Loop.{LoopInputs, main_step}
use esloq.Tests.Setup.{plain_box, bg, clear_window, machine, good_ticket, long_rotation}

abbrev with_ticket : Machine
with_ticket = machine State.ticket good_ticket

-- Nothing arrives, and no button is pressed.
abbrev calm : LoopInputs
calm = record {
  fsm = record {
    windows = clear_window ∷ clear_window ∷ [];
    acsr = 0;
    pind = 0;
    rotation = long_rotation;
  };
  header_slots = record { arrivals = []; timer = 65535 } ∷ [];
  body_slots = [];
  stack = replicate 60 0;
  handler_windows = [];
  presses = [];
  presses_turning = [];
  rotation = long_rotation;
}

abbrev logged_in : Machine
logged_in = (main_step plain_box bg calm with_ticket).0
