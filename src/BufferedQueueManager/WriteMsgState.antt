-- ===== src/BufferedQueueManager/WriteMsgState.antt =====
-- `WriteMsgState`: data that waits to be written, and the view of what was not written yet.
use fractals.Prelude.{ℕ, Bool, List, length, drop, ◌==◌}

pub record WriteMsgState : Type 0 where
  pub view : List ℕ
  pub buffer : List ℕ

-- The constructor: the view is all of the data.
unfoldable pub init : List ℕ → WriteMsgState
init bytes = record { view = bytes; buffer = bytes }

unfoldable pub is_complete : WriteMsgState → Bool
is_complete m = length m.view == 0

unfoldable pub remaining : WriteMsgState → ℕ
remaining m = length m.view

unfoldable pub flush : ℕ → WriteMsgState → WriteMsgState
flush shift m = record m { view = drop shift m.view }
