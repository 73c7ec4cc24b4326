-- ===== src/TcpMonitor/Stall.antt =====
-- Hosts whose recovery was reported (tools/tcpmonitor/monitor.go).
use cronjob.Base.{
  ℕ, ◌≤◌, ◌<◌, ◌≡◌, refl, Bool, true, false, List, [], ◌∷◌, length, arith, Text, text_eq, lookup,
  lookup-insert, Bool-cases, All, inl, inr,
}
use cronjob.Base.Int.{ℤ}
use cronjob.TcpMonitor.{
  TcpMonitor, ExecuteInfo, reached, MonitorState, execute_monitor, address_of, info_or_fresh,
  finish_host, finish_hosts, monitor_rounds,
}

pub record IsRecovered (times : ℤ) (i : ExecuteInfo) : Type 0 where
  pub answered : reached times i.success_times ≡ true
  pub failed_before : 1 ≤ i.error_times
  pub needed : i.need_send_error ≡ true
  pub down_sent : i.error_sent ≡ true
  pub up_sent : i.recover_sent ≡ true

pub record RecoveredHost (m : TcpMonitor) (s : MonitorState) (h : Text) : Type 0 where
  pub at : IsRecovered m.times (info_or_fresh (lookup (address_of m.port h) s.infos))

-- A run that connects, of a host that has recovered.
IsRecovered-run :
    (times : ℤ) (i : ExecuteInfo) (c : ℕ)
    → IsRecovered times i
    → IsRecovered times (execute_monitor times true i c).info
      × ((execute_monitor times true i c).success_count ≡ c)
unfolding execute_monitor
IsRecovered-run times i c r = ground arith

count_unchanged :
    (m : TcpMonitor) (s : MonitorState) (h : Text)
    → RecoveredHost m s h
    → (finish_host m s (h, true)).success_count ≡ s.success_count
unfolding finish_host
count_unchanged m s h r = (IsRecovered-run m.times _ s.success_count r.at).1

RecoveredHost-finish_host :
    (m : TcpMonitor) (s : MonitorState) (h g : Text)
    → RecoveredHost m s h
    → RecoveredHost m s g
    → RecoveredHost m (finish_host m s (h, true)) g
unfolding finish_host
RecoveredHost-finish_host m s h g r q =
    elim (Bool-cases (text_eq (address_of m.port h) (address_of m.port g))) [
      | inl same ↦ record {
        at = rw lookup-insert (
            rw same (unfold execute_monitor in (IsRecovered-run m.times _ s.success_count r.at).0));
      }
      | inr other ↦ record { at = rw lookup-insert (rw other q.at) }
    ]

-- The runs of a round that connect, of hosts that have recovered.
abbrev pub AllRecovered : TcpMonitor → MonitorState → List (Text × Bool) → Type 0
AllRecovered m s = All (λ c. (c.1 ≡ true) × RecoveredHost m s c.0)

AllRecovered-finish_host :
    (m : TcpMonitor) (s : MonitorState) (h : Text) (cs : List (Text × Bool))
    → RecoveredHost m s h
    → AllRecovered m s cs
    → AllRecovered m (finish_host m s (h, true)) cs
AllRecovered-finish_host m s h [] r q = tt
AllRecovered-finish_host m s h ((g, b) ∷ cs) r q =
    ((q.0.0, RecoveredHost-finish_host m s h g r q.0.1), AllRecovered-finish_host m s h cs r q.1)

-- A round of such runs keeps the counter, and the recovery of any other runs.
stalled_round :
    (m : TcpMonitor) (s : MonitorState) (cs : List (Text × Bool))
    → AllRecovered m s cs
    → ((finish_hosts m s cs).success_count ≡ s.success_count)
      × ((ds : List (Text × Bool)) → AllRecovered m s ds → AllRecovered m (finish_hosts m s cs) ds)
unfolding finish_hosts
stalled_round m s [] r = (refl, λ ds q. q)
stalled_round m s ((h, false) ∷ cs) r = cc
stalled_round m s ((h, true) ∷ cs) r =
    let s' = finish_host m s (h, true) in
    let (same, kept) = stalled_round m s' cs (AllRecovered-finish_host m s h cs r.0.1 r.1) in
    (
      cc (same, count_unchanged m s h r.0.1),
      λ ds q. kept ds (AllRecovered-finish_host m s h ds r.0.1 q),
    )

All-map :
    (m : TcpMonitor) (s s' : MonitorState) (rounds : List (List (Text × Bool)))
    → ((ds : List (Text × Bool)) → AllRecovered m s ds → AllRecovered m s' ds)
    → All (AllRecovered m s) rounds
    → All (AllRecovered m s') rounds
All-map m s s' [] k r = tt
All-map m s s' (ds ∷ rounds) k r = (k ds r.0, All-map m s s' rounds k r.1)

-- While the counter stands below the number of hosts, rounds of checks that connect, of hosts that
-- have failed, been reported down and been reported up again, never end the loop.
pub recovered_never_ends :
    (m : TcpMonitor) (s : MonitorState) (rounds : List (List (Text × Bool)))
    → s.success_count < length m.hosts
    → All (AllRecovered m s) rounds
    → (monitor_rounds m s rounds).1 ≡ false
unfolding monitor_rounds
recovered_never_ends m s [] lt r = refl
recovered_never_ends m s (cs ∷ rounds) lt r =
    let (same, kept) = stalled_round m s cs r.0 in
    let s' = finish_hosts m s cs in
    ground (
      arith,
      same,
      recovered_never_ends m s' rounds (omega (arith, same)) (All-map m s s' rounds kept r.1),
    )
