-- ===== src/Lock/Protocol/Lives.antt =====
-- Whatever a lock receives and however often it is reset, it follows the protocol.
use esloq.Mcu.{Mcu}
use esloq.Lock.State.{State}
use esloq.Lock.Quiet.{Quiet}
