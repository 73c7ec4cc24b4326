-- ===== src/JobLock/Tests.antt =====
-- The lock of a job (backend/worker/lock.go) on concrete answers.
use cronjob.Base.{
  some, ◌+◌, ◌≤◌, ◌≡◌, ◌≢◌, refl, true, false, List, [], ◌∷◌, length, codes, text_eq, Text,
}
use cronjob.Base.Int.{pos}
use cronjob.Executor.{Result, ok}
use cronjob.JobLock.{
  answered, BaseResponse, Lock, Phase, Renewing, Event, ticked, timer_fires, timer_received,
  replied, unlocked, step_in, run,
}
use cronjob.JobLock.Renewal.{last_request, loop_over_releases, refused_renewal_kills_nothing}
use cronjob.JobLock.Channels.{unlocks, channels_have_room}

-- A body that is the text of the status.
abbrev decode_status : Text → Result BaseResponse
decode_status t = ok (record { status = t; message = [] })

abbrev decode_lock : Text → Result Lock
decode_lock t = ok (record { lease_id = pos 7; password = t; is_active = true })

-- A lock that is held, in a phase of the loop.
abbrev held : Phase → Renewing
held phase = record {
  lock = record {
    name = codes "jobs/default/1";
    lease_id = pos 7;
    password = codes "secret";
    is_active = true;
    need_kill_chan = [];
    close_chan = 0;
    release_requests = [];
  };
  phase = phase;
  timer_expired = false;
}

waiting≢over : Phase.waiting ≢ Phase.over
waiting≢over e = cc e

-- A renewal succeeds, then the timer expires before the next.
abbrev expiring : List Event
expiring =
    ticked ∷ replied (answered 200 (codes "success")) ∷ timer_fires ∷ timer_received ∷ unlocked ∷ []

loop_over_releases_example :
    ((run decode_status expiring (held Phase.waiting)).lock.is_active ≡ false)
    × (last_request (run decode_status expiring (held Phase.waiting)).lock.release_requests
        ≡ some (pos 7))
unfolding run text_eq
loop_over_releases_example =
    loop_over_releases decode_status expiring (held Phase.waiting) waiting≢over refl

refused_renewal_kills_nothing_example :
    let r' =
      step_in decode_status Phase.posting
        (replied (answered 400 (codes "error")))
        (held Phase.posting) in
    (r'.lock.is_active ≡ false)
    × ((run decode_status (timer_fires ∷ timer_received ∷ []) r').lock.need_kill_chan ≡ [])
unfolding text_eq
refused_renewal_kills_nothing_example =
    refused_renewal_kills_nothing decode_status 400 (codes "error")
      (timer_fires ∷ timer_received ∷ []) (held Phase.posting) refl refl

channels_have_room_example :
    let r' = run decode_status expiring (held Phase.waiting) in
    (r'.lock.close_chan ≤ unlocks decode_status expiring + 2) × (length r'.lock.need_kill_chan ≤ 1)
channels_have_room_example =
    channels_have_room decode_status expiring (held Phase.waiting) refl refl
