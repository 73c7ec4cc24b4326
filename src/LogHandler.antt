-- ===== src/LogHandler.antt =====
-- The log handler of a worker (backend/worker/logHandler.go): a channel of logs, the list of those
-- received and not written yet, and the collection of the database that they are written to. A log is
-- a number here; nothing of it is read. A turn of the loop is one step, so that a stop falls between two
-- turns: within one, between the test of the list and its insertion, it would make the loop read the
-- result of an insertion that did not take place, which is a nil pointer.
pub mod Counted
pub mod Kept
pub mod Ending
mod Tests
use cronjob.Base.{
  ℕ, zero, suc, Bool, true, false, Option, none, some, List, [], ◌∷◌, ◌++◌, ltb, leb, length, take,
  if◌then◌else◌,
}

-- `MongoLogHandler`. `looping` says that `ConsumeLogsLoop` waits in its `select`; a nil pointer in the
-- channel is `none`.
pub record LogHandler : Type 0 where
  pub written : List ℕ  -- the database's collection
  pub log_chan : List (Option ℕ)
  pub log_list : List ℕ
  pub is_active : Bool
  pub looping : Bool

-- The handler when `ConsumeLogsLoop` has started.
abbrev pub started : LogHandler
started = record { written = []; log_chan = []; log_list = []; is_active = true; looping = true }

-- The answer of MongoDB to `InsertMany`, which is ordered: it takes all, or there is an error after the
-- first of them were written.
pub data Answer : Type 0 where
  taken : Answer
  refused : ℕ → Answer

abbrev pub inserted : Answer → LogHandler → LogHandler
inserted taken h = record h { written = h.written ++ h.log_list; log_list = [] }
inserted (refused n) h = record h { written = h.written ++ take n h.log_list }

-- `insertManayLogList`. An empty list is not sent; after an error the whole list is kept.
unfoldable pub insert_many_log_list : Answer → LogHandler → LogHandler
insert_many_log_list answer h = if ltb 0 (length h.log_list) then inserted answer h else h

-- What follows the loop.
unfoldable pub loop_end : Answer → LogHandler → LogHandler
unfolding insert_many_log_list
loop_end answer h =
    if ltb 0 (length h.log_list)
    then record (insert_many_log_list answer h) { looping = false }
    else record h { looping = false }

-- The condition of the `for`.
unfoldable pub loop_test : Answer → LogHandler → LogHandler
unfolding loop_end
loop_test answer h = if h.is_active then h else loop_end answer h

-- From the label `INSERT` to the end of the body.
unfoldable pub insert_part : Answer → LogHandler → LogHandler
unfolding insert_many_log_list
insert_part answer h = if ltb 0 (length h.log_list) then insert_many_log_list answer h else h

-- The case of a log received.
unfoldable pub receive : Answer → ℕ → LogHandler → LogHandler
unfolding insert_part
receive answer l h =
    let h' = record h { log_list = h.log_list ++ l ∷ [] } in
    if leb 50 (length h'.log_list) then insert_part answer h' else h'

-- A turn of the loop that receives from the channel, with what the database answers in the turn and
-- after it. Nothing is received from an empty channel.
unfoldable pub turn_received : Answer → Answer → List (Option ℕ) → LogHandler → LogHandler
unfolding receive loop_test
turn_received answer end_answer [] h = h
turn_received answer end_answer (none ∷ rest) h = loop_end end_answer (record h { log_chan = rest })
turn_received answer end_answer (some l ∷ rest) h =
    loop_test end_answer (receive answer l (record h { log_chan = rest }))

-- A turn in which the timer expires.
unfoldable pub turn_expired : Answer → Answer → LogHandler → LogHandler
unfolding insert_part loop_test
turn_expired answer end_answer h = loop_test end_answer (insert_part answer h)

-- `AddLog`
unfoldable pub add_log : Option ℕ → LogHandler → LogHandler
add_log l h = record h { log_chan = h.log_chan ++ l ∷ [] }

-- `Stop`
unfoldable pub stop : Answer → LogHandler → LogHandler
unfolding insert_many_log_list
stop answer h = insert_many_log_list answer (record h { is_active = false })

-- What may happen, in any order.
pub data Event : Type 0 where
  added : Option ℕ → Event
  received : Answer → Answer → Event
  expired : Answer → Answer → Event
  stopped : Answer → Event

unfoldable pub step : Event → LogHandler → LogHandler
unfolding add_log turn_received turn_expired stop
step (added l) h = add_log l h
step (received answer end_answer) h =
    if h.looping then turn_received answer end_answer h.log_chan h else h
step (expired answer end_answer) h = if h.looping then turn_expired answer end_answer h else h
step (stopped answer) h = stop answer h

unfoldable pub run : List Event → LogHandler → LogHandler
unfolding step
run [] h = h
run (e ∷ es) h = run es (step e h)
