-- ===== src/Packet/Session.antt =====
-- The session ids that a process gives out.
use py_sqlbridge.Prelude.{ℕ, ◌+◌, ◌≤◌, ◌<◌, ◌≡◌, ◌≢◌, arith}
use py_sqlbridge.Packet.{next_session_id, first_session_id, max_session_id}

-- From a counter that started at 51, every id lies between 51 and 65535, the counter goes on by
-- one, and of any 65485 ids given in a row no two are equal.
pub next_session_id_distinct :
    (first i j : ℕ)
    → first_session_id ≤ first
    → i < j
    → j < i + 65485
    → (first_session_id ≤ (next_session_id (first + i)).0)
      × ((next_session_id (first + i)).0 ≤ max_session_id)
      × ((next_session_id (first + i)).1 ≡ first + i + 1)
      × ((next_session_id (first + i)).0 ≢ (next_session_id (first + j)).0)
unfolding next_session_id
next_session_id_distinct first i j lo lt near =
    (ground arith, ground arith, ground arith, λ e. ground arith)
