-- ===== src/TcpMonitor.antt =====
-- The TCP monitor (tools/tcpmonitor: types.go, validate.go, alert.go, monitor.go). Counters are
-- Go `int`s that only grow by one a check, and are left unbounded. `executeMonitor` runs in a
-- goroutine per host; each run makes at most one update of the shared counter, under the lock, so
-- a round is the list of its runs in the order of that update.
pub mod Alerts
pub mod Exit
pub mod Stall
mod Tests
use cronjob.Base.{
  ℕ, zero, suc, ◌+◌, Bool, true, false, ◌&&◌, not, Option, none, some, List, [], ◌∷◌, ◌++◌, leb,
  length, if◌then◌else◌, Text, codes, decimal, Assoc, lookup, insert,
}
use cronjob.Base.Int.{ℤ, pos, negsuc, pos_part, leb_ℤ}

-- The fields that the loop reads. Times, interval and timeout may be given as 0 or less.
pub record TcpMonitor : Type 0 where
  pub hosts : List Text
  pub port : ℤ
  pub times : ℤ
  pub interval : ℤ
  pub timeout : ℤ
  pub emails : List Text
  pub phones : List Text
  pub users : List Text

pub data InvalidMonitor : Type 0 where
  no_hosts no_port no_receivers : InvalidMonitor

-- `if x <= 0 { x = d }`
unfoldable pub positive_or : ℕ → ℤ → ℤ
positive_or d x = if leb_ℤ x (pos 0) then pos d else x

-- The receivers are looked at last, after the defaults have been written.
unfoldable pub validate : TcpMonitor → TcpMonitor × Option InvalidMonitor
unfolding positive_or
validate m =
    if leb (length m.hosts) 0
    then (m, some no_hosts)
    else if leb_ℤ m.port (pos 0)
    then (m, some no_port)
    else (let m' = record m {
      interval = positive_or 30 m.interval;
      timeout = positive_or 5 m.timeout;
      times = positive_or 2 m.times;
    } in
        if leb (length m.users) 0 && leb (length m.emails) 0 && leb (length m.phones) 0
        then (m', some no_receivers)
        else (m', none))

-- `monitorExecuteInfo`: what is remembered of one address. Its `count` is never written.
pub record ExecuteInfo : Type 0 where
  pub success_times : ℕ
  pub error_times : ℕ
  pub need_send_error : Bool
  pub error_sent : Bool
  pub need_send_recover : Bool
  pub recover_sent : Bool

abbrev pub fresh : ExecuteInfo
fresh = record {
  success_times = 0;
  error_times = 0;
  need_send_error = false;
  error_sent = false;
  need_send_recover = false;
  recover_sent = false;
}

pub data Alert : Type 0 where
  down up : Alert

-- What `SendErrorMessage` and `SendRecoverMessage` return: an error, or a flag of success.
pub data Sent : Type 0 where
  send_error : Sent
  returned : Bool → Sent

abbrev pub send_error_message : Sent
send_error_message = returned true

abbrev pub send_recover_message : Sent
send_recover_message = returned true

abbrev is_sent : Sent → Bool
is_sent send_error = false
is_sent (returned b) = b

-- One run of `executeMonitor` on an address: the info that it leaves, the shared counter of
-- successes, and the alert that it sends.
pub record Run : Type 0 where
  pub info : ExecuteInfo
  pub success_count : ℕ
  pub alert : Option Alert

-- `info.xTimes >= tcpMonitor.Times`, where the left side is not negative.
abbrev pub reached : ℤ → ℕ → Bool
reached times n = leb (pos_part times) n

-- An error after a recovery that was reported starts a new count.
reset_recovered : ExecuteInfo → ExecuteInfo
reset_recovered i =
    if i.need_send_recover && i.recover_sent
    then record {
      success_times = 0;
      error_times = 1;
      need_send_error = false;
      error_sent = false;
      need_send_recover = false;
      recover_sent = false;
    }
    else i

unfoldable pub dial_failed : ℤ → ExecuteInfo → Run
unfolding reset_recovered
dial_failed times i =
    let i₁ = reset_recovered (record i { error_times = i.error_times + 1; success_times = 0 }) in
    let i₂ = record i₁ { need_send_error = reached times i₁.error_times } in
    if i₂.need_send_error && not i₂.error_sent
    then record {
      info = record i₂ { error_sent = is_sent send_error_message };
      success_count = 0;
      alert = some down;
    }
    else record { info = i₂; success_count = 0; alert = none }

-- The branch of `executeMonitor` where the host answers again after errors.
unfoldable pub answered_again : ℤ → ExecuteInfo → ℕ → Run
answered_again times i count =
    let i₁ = record i { success_times = i.success_times + 1 } in
    if reached times i₁.success_times
    then (let announced = i₁.need_send_error && i₁.error_sent in
        let i₂ = record i₁ { need_send_recover = announced } in
        let count' = if announced then count else count + 1 in
        if announced && not i₂.recover_sent
        then record {
          info = record i₂ { recover_sent = is_sent send_recover_message };
          success_count = if is_sent send_recover_message then count' + 1 else count';
          alert = some up;
        }
        else record { info = i₂; success_count = count'; alert = none })
    else record { info = i₁; success_count = 0; alert = none }

unfoldable pub dial_ok : ℤ → ExecuteInfo → ℕ → Run
unfolding answered_again
dial_ok times i count =
    if leb 1 i.error_times
    then answered_again times i count
    else record { info = i; success_count = count + 1; alert = none }

-- `executeMonitor`; the flag says whether `net.DialTimeout` connected.
unfoldable pub execute_monitor : ℤ → Bool → ExecuteInfo → ℕ → Run
unfolding dial_failed dial_ok
execute_monitor times true i count = dial_ok times i count
execute_monitor times false i count = dial_failed times i

-- The state of the loop: the infos by address, the counter, and the alerts, newest first.
pub record MonitorState : Type 0 where
  pub infos : Assoc ExecuteInfo
  pub success_count : ℕ
  pub alerts : List (Text × Alert)

abbrev pub log_alert : Text → Option Alert → List (Text × Alert) → List (Text × Alert)
log_alert a none l = l
log_alert a (some x) l = (a, x) ∷ l

-- `fmt.Sprintf("%s:%d", host, port)`, for the positive ports that `validate` lets through.
unfoldable pub address_of : ℤ → Text → Text
address_of port host = host ++ (codes ":" ++ decimal (pos_part port))

abbrev pub info_or_fresh : Option ExecuteInfo → ExecuteInfo
info_or_fresh none = fresh
info_or_fresh (some i) = i

-- The loop over the hosts makes the missing infos before the goroutines use them; a run reads its
-- own address only, so the info may as well be made when its run is counted. The runs of an address
-- that is listed twice follow one another here; in the source they share its info without a lock.
unfoldable pub finish_host : TcpMonitor → MonitorState → Text × Bool → MonitorState
unfolding execute_monitor
finish_host m s (host, ok) =
    let address = address_of m.port host in
    let r = execute_monitor m.times ok (info_or_fresh (lookup address s.infos)) s.success_count in
    record {
      infos = insert address r.info s.infos;
      success_count = r.success_count;
      alerts = log_alert address r.alert s.alerts;
    }

-- The runs of one round, in the order in which they are counted.
unfoldable pub finish_hosts : TcpMonitor → MonitorState → List (Text × Bool) → MonitorState
finish_hosts m s [] = s
finish_hosts m s (c ∷ cs) = finish_hosts m (finish_host m s c) cs

abbrev pub start : MonitorState
start = record { infos = []; success_count = 0; alerts = [] }

-- `for { ... }` over the rounds that are dialled, `true` if the loop has returned by then.
unfoldable pub monitor_rounds :
    TcpMonitor → MonitorState → List (List (Text × Bool)) → MonitorState × Bool
unfolding finish_hosts finish_host
monitor_rounds m s [] = (s, false)
monitor_rounds m s (round ∷ rounds) =
    let s' = finish_hosts m s round in
    let rest = monitor_rounds m s' rounds in
    if leb (length m.hosts) s'.success_count then (s', true) else rest

-- An invalid monitor returns at once.
unfoldable pub monitor_valid :
    TcpMonitor × Option InvalidMonitor → List (List (Text × Bool)) → MonitorState × Bool
unfolding monitor_rounds
monitor_valid (m, none) rounds = monitor_rounds m start rounds
monitor_valid (m, some e) rounds = (start, true)

unfoldable pub execute_monitor_loop : TcpMonitor → List (List (Text × Bool)) → MonitorState × Bool
unfolding validate monitor_valid
execute_monitor_loop m rounds = monitor_valid (validate m) rounds
