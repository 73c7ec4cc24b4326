-- ===== src/Connect.antt =====
-- The connecting of a worker to the socket of the master (backend/worker/socket.go,
-- `connectMasterSocket`). What every try meets is an argument.
pub mod Tries
mod Tests
use cronjob.Base.{ℕ, suc, ◌+◌, ◌*◌, Bool, true, false, List, [], ◌∷◌, ltb, if◌then◌else◌}

-- The worker is not active any more, the URL cannot be made, the dial fails, or it succeeds.
pub data Attempt : Type 0 where
  inactive no_url refused accepted : Attempt

-- The worker gives up quietly, exits, is connected, or still waits for another try.
pub data Outcome : Type 0 where
  returned exited connected waiting : Outcome

pub record Connecting : Type 0 where
  pub outcome : Outcome
  pub dials : ℕ
  pub slept : ℕ  -- seconds

abbrev pub at_once : Outcome → ℕ → Connecting
at_once outcome dials = record { outcome = outcome; dials = dials; slept = 0 }

-- `connectMasterSocket(times)`; the list of attempts bounds the recursion.
unfoldable pub connect_master_socket : ℕ → List Attempt → Connecting
connect_master_socket times [] = at_once waiting 0
connect_master_socket times (inactive ∷ attempts) = at_once returned 0
connect_master_socket times (no_url ∷ attempts) = at_once exited 0
connect_master_socket times (accepted ∷ attempts) = at_once connected 1
connect_master_socket times (refused ∷ attempts) =
    let next = connect_master_socket (times + 1) attempts in
    if ltb times 10
    then record { outcome = next.outcome; dials = suc next.dials; slept = times * 5 + next.slept }
    else at_once exited 1
