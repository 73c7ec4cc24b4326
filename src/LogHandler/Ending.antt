-- ===== src/LogHandler/Ending.antt =====
-- The bound on the list of logs that wait, and what becomes of it when the log handler of a worker
-- stops (backend/worker/logHandler.go).
use cronjob.Base.{
  ℕ, ◌<◌, ◌≡◌, refl, Bool, true, false, ◌&&◌, Option, none, some, List, [], ◌∷◌, length,
  length-append, ltb, arith, if◌then◌else◌,
}
use cronjob.LogHandler.{
  LogHandler, Answer, taken, refused, insert_many_log_list, loop_end, loop_test, insert_part,
  receive, turn_received, turn_expired, add_log, stop, Event, added, received, expired, stopped,
  step, run, started,
}

abbrev is_taken : Answer → Bool
is_taken taken = true
is_taken (refused n) = false

-- The database takes every list in this schedule.
abbrev pub all_taken : List Event → Bool
all_taken [] = true
all_taken (added l ∷ es) = all_taken es
all_taken (received a b ∷ es) = is_taken a && (is_taken b && all_taken es)
all_taken (expired a b ∷ es) = is_taken a && (is_taken b && all_taken es)
all_taken (stopped a ∷ es) = is_taken a && all_taken es

-- Fewer than 50 logs wait, none if the loop is over, and the loop goes on unless it was stopped.
abbrev pub IsFlushed : LogHandler → Type 0
IsFlushed h = (length h.log_list < 50) × (h.looping ≡ false → h.log_list ≡ [])

empty : (xs : List ℕ) → ltb 0 (length xs) ≡ false → xs ≡ []
empty [] e = refl
empty (x ∷ xs) e = absurd (ground arith)

IsFlushed-loop_end : (h : LogHandler) → length h.log_list < 50 → IsFlushed (loop_end taken h)
unfolding loop_end insert_many_log_list
IsFlushed-loop_end h x = ground (arith, empty h.log_list)

IsFlushed-loop_test :
    (h : LogHandler) → h.looping ≡ true → length h.log_list < 50 → IsFlushed (loop_test taken h)
unfolding loop_test
IsFlushed-loop_test h on x = ground (arith, IsFlushed-loop_end h x)

IsFlushed-turn_received :
    (chan : List (Option ℕ)) (h : LogHandler)
    → h.looping ≡ true
    → IsFlushed h
    → IsFlushed (turn_received taken taken chan h)
unfolding turn_received receive insert_part insert_many_log_list
IsFlushed-turn_received [] h on x = x
IsFlushed-turn_received (none ∷ rest) h on x = IsFlushed-loop_end _ x.0
IsFlushed-turn_received (some l ∷ rest) h on x =
    let h' = record h { log_chan = rest } in
    IsFlushed-loop_test (receive taken l h') (ground arith)
      (ground (arith, length-append h.log_list (l ∷ [])))

IsFlushed-if :
    (b : Bool) (h h' : LogHandler)
    → (b ≡ true → IsFlushed h')
    → IsFlushed h
    → IsFlushed (if b then h' else h)
IsFlushed-if true h h' f x = f refl
IsFlushed-if false h h' f x = x

IsFlushed-step :
    (e : Event) (h : LogHandler) → all_taken (e ∷ []) ≡ true → IsFlushed h → IsFlushed (step e h)
unfolding step add_log turn_expired insert_part insert_many_log_list stop
IsFlushed-step (added l) h t x = x
IsFlushed-step (received taken taken) h t x =
    IsFlushed-if h.looping h (turn_received taken taken h.log_chan h)
      (λ on. IsFlushed-turn_received h.log_chan h on x) x
IsFlushed-step (received taken (refused n)) h t x = absurd (ground arith)
IsFlushed-step (received (refused n) b) h t x = absurd (ground arith)
IsFlushed-step (expired taken taken) h t x =
    IsFlushed-if h.looping h (turn_expired taken taken h)
      (λ on. IsFlushed-loop_test (insert_part taken h) (ground arith) (ground (arith, x.0))) x
IsFlushed-step (expired taken (refused n)) h t x = absurd (ground arith)
IsFlushed-step (expired (refused n) b) h t x = absurd (ground arith)
IsFlushed-step (stopped taken) h t x = ground (arith, x)
IsFlushed-step (stopped (refused n)) h t x = absurd (ground arith)

all_taken-cons :
    (e : Event) (es : List Event) → all_taken (e ∷ es) ≡ (all_taken (e ∷ []) && all_taken es)
all_taken-cons (added l) es = ground arith
all_taken-cons (received a b) es = ground arith
all_taken-cons (expired a b) es = ground arith
all_taken-cons (stopped a) es = ground arith

IsFlushed-run :
    (es : List Event) (h : LogHandler) → all_taken es ≡ true → IsFlushed h → IsFlushed (run es h)
unfolding run
IsFlushed-run [] h t x = x
IsFlushed-run (e ∷ es) h t x =
    let both = all_taken-cons e es in
    IsFlushed-run es (step e h) (ground (arith, both, t))
      (IsFlushed-step e h (ground (arith, both, t)) x)

-- If the database takes every list, then fewer than 50 received logs wait at any time, and none once
-- the loop is over.
pub received_logs_written :
    (es : List Event)
    → all_taken es ≡ true
    → let h = run es started in (length h.log_list < 50) × (h.looping ≡ false → h.log_list ≡ [])
received_logs_written es t = IsFlushed-run es started t (omega arith, λ e. refl)
