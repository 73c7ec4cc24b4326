-- ===== src/LogHandler/Tests.antt =====
-- The log handler of a worker (backend/worker/logHandler.go) on concrete schedules.
use cronjob.Base.{◌<◌, ◌≤◌, ◌≡◌, refl, false, some, List, [], ◌∷◌, length}
use cronjob.LogHandler.{taken, refused, started, Event, added, received, expired, stopped, run}
use cronjob.LogHandler.Counted.{count}
use cronjob.LogHandler.Kept.{all_logs, no_log_lost, logs_in_order}
use cronjob.LogHandler.Ending.{received_logs_written}

-- Three logs; the first is received and written, the second is refused by the database at first.
abbrev busy : List Event
busy =
    added (some 1)
    ∷ added (some 2)
    ∷ added (some 3)
    ∷ received taken taken
    ∷ expired taken taken
    ∷ received taken taken
    ∷ expired (refused 0) taken
    ∷ []

logs_in_order_example : all_logs (run busy started) ≡ 1 ∷ 2 ∷ 3 ∷ []
logs_in_order_example = logs_in_order busy refl

-- Two logs are received, and an insertion writes the first of them and fails.
abbrev half_written : List Event
half_written =
    added (some 1)
    ∷ added (some 2)
    ∷ received taken taken
    ∷ received taken taken
    ∷ expired (refused 1) taken
    ∷ expired taken taken
    ∷ []

written_twice : (run half_written started).written ≡ 1 ∷ 1 ∷ 2 ∷ []
unfolding run
written_twice = refl

no_log_lost_example : 1 ≤ count 2 (all_logs (run half_written started))
no_log_lost_example = no_log_lost half_written 2

-- Two logs are received, and the handler is stopped.
abbrev ending : List Event
ending =
    added (some 1)
    ∷ added (some 2)
    ∷ received taken taken
    ∷ stopped taken
    ∷ received taken taken
    ∷ []

received_logs_written_example :
    let h = run ending started in (length h.log_list < 50) × (h.looping ≡ false → h.log_list ≡ [])
received_logs_written_example = received_logs_written ending refl
