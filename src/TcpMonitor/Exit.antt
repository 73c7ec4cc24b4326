-- ===== src/TcpMonitor/Exit.antt =====
-- When the loop over the rounds (tools/tcpmonitor/monitor.go) returns.
use cronjob.Base.{
  ℕ, ◌+◌, ◌≤◌, ◌<◌, ◌≡◌, refl, inl, inr, Bool, true, false, ◌&&◌, List, [], ◌∷◌, length, arith, All,
  if◌then◌else◌, Text, lookup, Bool-cases, Assoc, lookup-insert,
}
use cronjob.Base.Int.{ℤ}
use cronjob.TcpMonitor.{
  TcpMonitor, ExecuteInfo, MonitorState, execute_monitor, address_of, info_or_fresh, finish_host,
  finish_hosts, monitor_rounds, start,
}

-- Every run of the list connected.
abbrev pub all_ok : List (Text × Bool) → Bool
all_ok [] = true
all_ok ((h, b) ∷ cs) = b && all_ok cs

count-execute_monitor :
    (times : ℤ) (ok : Bool) (i : ExecuteInfo) (c : ℕ)
    → (execute_monitor times ok i c).success_count ≤ (if ok then c + 1 else 0)
unfolding execute_monitor
count-execute_monitor times true i c = ground arith
count-execute_monitor times false i c = ground arith

count-finish_host :
    (m : TcpMonitor) (s : MonitorState) (h : Text) (ok : Bool)
    → (finish_host m s (h, ok)).success_count ≤ (if ok then s.success_count + 1 else 0)
unfolding finish_host
count-finish_host m s h ok = count-execute_monitor m.times ok _ s.success_count

count-finish_hosts :
    (m : TcpMonitor) (s : MonitorState) (cs : List (Text × Bool))
    → (finish_hosts m s cs).success_count ≤ s.success_count + length cs
unfolding finish_hosts
count-finish_hosts m s [] = omega arith
count-finish_hosts m s ((h, ok) ∷ cs) =
    ground (arith, count-finish_host m s h ok, count-finish_hosts m (finish_host m s (h, ok)) cs)

-- A failure in a round keeps the counter below the number of runs of the round.
count_after_failure :
    (m : TcpMonitor) (s : MonitorState) (cs : List (Text × Bool))
    → all_ok cs ≡ false
    → (finish_hosts m s cs).success_count < length cs
unfolding finish_hosts
count_after_failure m s [] f = cc
count_after_failure m s ((h, true) ∷ cs) f =
    omega (arith, count_after_failure m (finish_host m s (h, true)) cs f)
count_after_failure m s ((h, false) ∷ cs) f =
    omega
      (arith, count-finish_host m s h false, count-finish_hosts m (finish_host m s (h, false)) cs)

-- No address that has been checked has failed so far.
abbrev AllHealthy : Assoc ExecuteInfo → Type 0
AllHealthy infos = (a : Text) → (info_or_fresh (lookup a infos)).error_times ≡ 0

finish_host_healthy :
    (m : TcpMonitor) (s : MonitorState) (h : Text)
    → AllHealthy s.infos
    → AllHealthy (finish_host m s (h, true)).infos
      × ((finish_host m s (h, true)).success_count ≡ s.success_count + 1)
unfolding finish_host execute_monitor
finish_host_healthy m s h ok = (
  λ a. rw lookup-insert (ground (arith, ok a, ok (address_of m.port h))),
  ground (arith, ok (address_of m.port h)),
)

count_all_ok :
    (m : TcpMonitor) (s : MonitorState) (cs : List (Text × Bool))
    → AllHealthy s.infos
    → all_ok cs ≡ true
    → (finish_hosts m s cs).success_count ≡ s.success_count + length cs
unfolding finish_hosts
count_all_ok m s [] healthy ok = omega arith
count_all_ok m s ((h, false) ∷ cs) healthy ok = cc
count_all_ok m s ((h, true) ∷ cs) healthy ok =
    let (healthy', counted) = finish_host_healthy m s h healthy in
    omega (arith, counted, count_all_ok m (finish_host m s (h, true)) cs healthy' ok)

-- Whatever came before, rounds that make as many checks as there are hosts, and in each of which some
-- host cannot be reached, do not end the loop.
pub failed_rounds_go_on :
    (m : TcpMonitor) (s : MonitorState) (rounds : List (List (Text × Bool)))
    → All (λ cs. (length cs ≡ length m.hosts) × (all_ok cs ≡ false)) rounds
    → (monitor_rounds m s rounds).1 ≡ false
unfolding monitor_rounds
failed_rounds_go_on m s [] h = refl
failed_rounds_go_on m s (cs ∷ rounds) h = ground (
  arith,
  count_after_failure m s cs h.0.1,
  failed_rounds_go_on m (finish_hosts m s cs) rounds h.1,
)

-- From the start, a round of as many checks as there are hosts ends the loop exactly if all of them
-- connect.
pub first_round_exit :
    (m : TcpMonitor) (cs : List (Text × Bool))
    → length cs ≡ length m.hosts
    → (monitor_rounds m start (cs ∷ [])).1 ≡ all_ok cs
unfolding monitor_rounds lookup
first_round_exit m cs h = elim (Bool-cases (all_ok cs)) [
  | inl ok ↦ ground (arith, count_all_ok m start cs (λ a. refl) ok)
  | inr ko ↦ ground (arith, count_after_failure m start cs ko)
]
