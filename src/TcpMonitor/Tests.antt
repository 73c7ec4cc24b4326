-- ===== src/TcpMonitor/Tests.antt =====
-- The TCP monitor (tools/tcpmonitor) on concrete rounds.
use cronjob.Base.{
  ◌≡◌, refl, Bool, true, false, List, [], ◌∷◌, Text, codes, arith, All, lookup, insert, text_eq,
  decimal,
}
use cronjob.Base.Int.{pos}
use cronjob.TcpMonitor.{
  TcpMonitor, MonitorState, start, monitor_rounds, execute_monitor_loop, address_of, info_or_fresh,
}
use cronjob.TcpMonitor.Alerts.{IsAlternating, alerts_of, outage, alerts_alternate}
use cronjob.TcpMonitor.Stall.{AllRecovered, RecoveredHost, recovered_never_ends}

abbrev two_hosts : TcpMonitor
two_hosts = record {
  hosts = codes "a" ∷ codes "b" ∷ [];
  port = pos 80;
  times = pos 2;
  interval = pos 10;
  timeout = pos 2;
  emails = codes "me" ∷ [];
  phones = [];
  users = [];
}

abbrev both : Bool → Bool → List (Text × Bool)
both a b = (codes "a", a) ∷ (codes "b", b) ∷ []

-- Both hosts fail twice; the first is back two rounds before the second.
abbrev apart : List (List (Text × Bool))
apart =
    both false false
    ∷ both false false
    ∷ both true false
    ∷ both true false
    ∷ both true true
    ∷ both true true
    ∷ []

alerts_alternate_example :
    let s = (execute_monitor_loop two_hosts apart).0 in
    IsAlternating
      (outage (info_or_fresh (lookup (codes "a:80") s.infos)))
      (alerts_of (codes "a:80") s.alerts)
alerts_alternate_example = alerts_alternate two_hosts apart (codes "a:80")

-- The state after those rounds: both hosts were reported up again.
abbrev recovered_apart : MonitorState
recovered_apart = (monitor_rounds two_hosts start apart).0

a_recovered : RecoveredHost two_hosts recovered_apart (codes "a")
unfolding monitor_rounds address_of decimal text_eq lookup insert
a_recovered = record {
  at = record {
    answered = refl;
    failed_before = omega arith;
    needed = refl;
    down_sent = refl;
    up_sent = refl;
  };
}

b_recovered : RecoveredHost two_hosts recovered_apart (codes "b")
unfolding monitor_rounds address_of decimal text_eq lookup insert
b_recovered = record {
  at = record {
    answered = refl;
    failed_before = omega arith;
    needed = refl;
    down_sent = refl;
    up_sent = refl;
  };
}

recovered_never_ends_example :
    (monitor_rounds two_hosts recovered_apart (both true true ∷ both true true ∷ [])).1 ≡ false
unfolding monitor_rounds address_of decimal text_eq lookup insert
recovered_never_ends_example =
    let up : All (AllRecovered two_hosts recovered_apart) (both true true ∷ []) =
      (((refl, a_recovered), ((refl, b_recovered), tt)), tt) in
    recovered_never_ends two_hosts recovered_apart (both true true ∷ both true true ∷ [])
      (omega arith) (up.0, up)
