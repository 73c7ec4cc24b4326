-- ===== src/TcpMonitor/Alerts.antt =====
-- The alerts that the monitor (tools/tcpmonitor/monitor.go) sends for one address.
use cronjob.Base.{
  ℕ, zero, suc, ◌+◌, ◌≤◌, ◌≡◌, refl, ap, ◌∙◌, inl, inr, Bool, true, false, ◌&&◌, not, Option, none,
  some, List, [], ◌∷◌, leb, arith, if◌then◌else◌, Text, text_eq, text_eq_iff, text_eq_refl, subst,
  length, lookup, lookup-insert, Bool-cases, replicate,
}
use cronjob.Base.Int.{ℤ, pos_part}
use cronjob.TcpMonitor.{
  TcpMonitor, ExecuteInfo, Alert, down, up, reached, MonitorState, execute_monitor, address_of,
  info_or_fresh, log_alert, finish_host, finish_hosts, monitor_rounds, execute_monitor_loop,
  monitor_valid, InvalidMonitor, start, validate,
}

-- An outage has been reported and its end has not.
abbrev pub outage : ExecuteInfo → Bool
outage i = i.error_sent && not i.recover_sent

-- Newest first: the alerts alternate, the oldest is `down`, and the newest is `down` if `b`.
abbrev pub IsAlternating : Bool → List Alert → Type 0
IsAlternating false [] = Unit
IsAlternating false (up ∷ l) = IsAlternating true l
IsAlternating true (down ∷ l) = IsAlternating false l
IsAlternating _ _ = ⊥

abbrev pub alerts_of : Text → List (Text × Alert) → List Alert
alerts_of a [] = []
alerts_of a ((b, x) ∷ l) = let rest = alerts_of a l in if text_eq b a then x ∷ rest else rest

record IsConsistent (times : ℤ) (i : ExecuteInfo) : Type 0 where
  sent_reached : i.error_sent ≡ true → reached times i.error_times ≡ true
  sent_needed : i.error_sent ≡ true → i.need_send_error ≡ true
  recovered_sent : i.recover_sent ≡ true → i.error_sent ≡ true
  recovered_needed : i.recover_sent ≡ true → i.need_send_recover ≡ true

IsConsistent-execute_monitor :
    (times : ℤ) (ok : Bool) (i : ExecuteInfo) (c : ℕ)
    → IsConsistent times i
    → IsConsistent times (execute_monitor times ok i c).info
unfolding execute_monitor
IsConsistent-execute_monitor times true i c h = ground arith
IsConsistent-execute_monitor times false i c h = ground arith

-- What one run does to the outage and to the log.
abbrev add : Option Alert → List Alert → List Alert
add none l = l
add (some x) l = x ∷ l

IsAlternating-execute_monitor :
    (times : ℤ) (ok : Bool) (i : ExecuteInfo) (c : ℕ) (l : List Alert)
    → IsConsistent times i
    → IsAlternating (outage i) l
    → IsAlternating
        (outage (execute_monitor times ok i c).info)
        (add (execute_monitor times ok i c).alert l)
unfolding execute_monitor
IsAlternating-execute_monitor times true i c l h a = ground arith
IsAlternating-execute_monitor times false i c l h a = ground arith

record IsOrderly (times : ℤ) (s : MonitorState) (a : Text) : Type 0 where
  consistent : IsConsistent times (info_or_fresh (lookup a s.infos))
  alternate : IsAlternating (outage (info_or_fresh (lookup a s.infos))) (alerts_of a s.alerts)

alerts_of-log_alert_self :
    (a : Text) (x : Option Alert) (l : List (Text × Alert))
    → alerts_of a (log_alert a x l) ≡ add x (alerts_of a l)
alerts_of-log_alert_self a none l = refl
alerts_of-log_alert_self a (some x) l = rw (text_eq_refl a)

alerts_of-log_alert_ne :
    (a b : Text) (x : Option Alert) (l : List (Text × Alert))
    → text_eq b a ≡ false
    → alerts_of a (log_alert b x l) ≡ alerts_of a l
alerts_of-log_alert_ne a b none l h = refl
alerts_of-log_alert_ne a b (some x) l h = rw h

-- The run of another address leaves this one alone.
IsOrderly-other :
    (m : TcpMonitor) (s : MonitorState) (h : Text) (ok : Bool) (a : Text)
    → text_eq (address_of m.port h) a ≡ false
    → IsOrderly m.times s a
    → IsOrderly m.times (finish_host m s (h, ok)) a
unfolding finish_host
IsOrderly-other m s h ok a ne o = record {
  consistent = rw lookup-insert (rw ne o.consistent);
  alternate = rw lookup-insert (rw (ne, alerts_of-log_alert_ne a _ _ s.alerts ne) o.alternate);
}

IsOrderly-self :
    (m : TcpMonitor) (s : MonitorState) (h : Text) (ok : Bool)
    → IsOrderly m.times s (address_of m.port h)
    → IsOrderly m.times (finish_host m s (h, ok)) (address_of m.port h)
unfolding finish_host
IsOrderly-self m s h ok o =
    let a = address_of m.port h in
    let i = info_or_fresh (lookup a s.infos) in
    record {
      consistent = rw lookup-insert (
          rw (text_eq_refl a) (
            unfold execute_monitor in
            IsConsistent-execute_monitor m.times ok i s.success_count o.consistent));
      alternate = rw lookup-insert (
          rw (text_eq_refl a, alerts_of-log_alert_self)
            (IsAlternating-execute_monitor m.times ok i s.success_count _ o.consistent
              o.alternate));
    }

IsOrderly-finish_host :
    (m : TcpMonitor) (s : MonitorState) (c : Text × Bool) (a : Text)
    → IsOrderly m.times s a
    → IsOrderly m.times (finish_host m s c) a
IsOrderly-finish_host m s (h, ok) a o = elim (Bool-cases (text_eq (address_of m.port h) a)) [
  | inl same ↦
      let e : address_of m.port h ≡ a = (text_eq_iff _ _).0 same in
      subst (λ b. IsOrderly m.times s b → IsOrderly m.times (finish_host m s (h, ok)) b) e
        (IsOrderly-self m s h ok) o
  | inr other ↦ IsOrderly-other m s h ok a other o
]

IsOrderly-finish_hosts :
    (m : TcpMonitor) (s : MonitorState) (cs : List (Text × Bool)) (a : Text)
    → IsOrderly m.times s a
    → IsOrderly m.times (finish_hosts m s cs) a
unfolding finish_hosts
IsOrderly-finish_hosts m s [] a o = o
IsOrderly-finish_hosts m s (c ∷ cs) a o =
    IsOrderly-finish_hosts m (finish_host m s c) cs a (IsOrderly-finish_host m s c a o)

IsOrderly-monitor_rounds :
    (m : TcpMonitor) (s : MonitorState) (rounds : List (List (Text × Bool))) (a : Text)
    → IsOrderly m.times s a
    → IsOrderly m.times (monitor_rounds m s rounds).0 a
unfolding monitor_rounds
IsOrderly-monitor_rounds m s [] a o = o
IsOrderly-monitor_rounds m s (cs ∷ rounds) a o =
    let o' = IsOrderly-finish_hosts m s cs a o in
    elim (Bool-cases (leb (length m.hosts) (finish_hosts m s cs).success_count)) [
      | inl done ↦ rw done o'
      | inr more ↦ rw more (IsOrderly-monitor_rounds m (finish_hosts m s cs) rounds a o')
    ]

IsOrderly-start : (times : ℤ) (a : Text) → IsOrderly times start a
unfolding lookup
IsOrderly-start times a = record { consistent = ground arith; alternate = tt }

IsAlternating-monitor_valid :
    (v : TcpMonitor × Option InvalidMonitor) (rounds : List (List (Text × Bool))) (a : Text)
    → let s = (monitor_valid v rounds).0 in
      IsAlternating (outage (info_or_fresh (lookup a s.infos))) (alerts_of a s.alerts)
unfolding monitor_valid
IsAlternating-monitor_valid (m, none) rounds a =
    (IsOrderly-monitor_rounds m start rounds a (IsOrderly-start m.times a)).alternate
IsAlternating-monitor_valid (m, some e) rounds a = (IsOrderly-start m.times a).alternate

-- Whatever the rounds, the alerts of every address alternate between `down` and `up`, beginning
-- with `down`, and the newest is `down` exactly while an outage is reported and not recovered.
pub alerts_alternate :
    (m : TcpMonitor) (rounds : List (List (Text × Bool))) (a : Text)
    → let s = (execute_monitor_loop m rounds).0 in
      IsAlternating (outage (info_or_fresh (lookup a s.infos))) (alerts_of a s.alerts)
unfolding execute_monitor_loop
alerts_alternate m rounds a = IsAlternating-monitor_valid (validate m) rounds a

-- The info of a host after `k` errors and no answer.
abbrev failing : ℤ → ℕ → ExecuteInfo
failing times k = record {
  success_times = 0;
  error_times = k;
  need_send_error = reached times k;
  error_sent = reached times k;
  need_send_recover = false;
  recover_sent = false;
}

record HasFailed (m : TcpMonitor) (h : Text) (k : ℕ) (s : MonitorState) : Type 0 where
  info : info_or_fresh (lookup (address_of m.port h) s.infos) ≡ failing m.times k
  sent : alerts_of (address_of m.port h) s.alerts ≡ (if reached m.times k then down ∷ [] else [])

module _ (m : TcpMonitor) (h : Text) where
  run_failing :
      (k c : ℕ)
      → let r = execute_monitor m.times false (failing m.times k) c in
        (r.info ≡ failing m.times (k + 1))
        × (add r.alert (if reached m.times k then down ∷ [] else [])
            ≡ (if reached m.times (k + 1) then down ∷ [] else []))
  unfolding execute_monitor
  run_failing k c = ground arith

  HasFailed-finish_host :
      (k : ℕ) (s : MonitorState)
      → HasFailed m h k s
      → HasFailed m h (k + 1) (finish_host m s (h, false))
  unfolding finish_host
  HasFailed-finish_host k s f = record {
    info = rw lookup-insert (
        rw (text_eq_refl (address_of m.port h))
          (unfold execute_monitor in rw f.info ((run_failing k s.success_count).0)));
    sent = rw (alerts_of-log_alert_self, f.info, f.sent) (run_failing k s.success_count).1;
  }

  HasFailed-finish_hosts :
      (n k : ℕ) (s : MonitorState)
      → HasFailed m h k s
      → HasFailed m h (k + n) (finish_hosts m s (replicate n (h, false)))
  unfolding finish_hosts
  HasFailed-finish_hosts zero k s f = subst (λ j. HasFailed m h j s) (omega arith) f
  HasFailed-finish_hosts (suc n) k s f =
      subst (λ j. HasFailed m h j (finish_hosts m s (replicate (suc n) (h, false)))) (omega arith)
        (HasFailed-finish_hosts n (k + 1) (finish_host m s (h, false))
          (HasFailed-finish_host k s f))

-- With a `times` of at least 1, a host that fails `n` checks from the start is reported down once if
-- `n` has reached `times`, and not at all before.
pub down_reported_once :
    (m : TcpMonitor) (h : Text) (n : ℕ)
    → 1 ≤ pos_part m.times
    → alerts_of (address_of m.port h) (finish_hosts m start (replicate n (h, false))).alerts
      ≡ (if leb (pos_part m.times) n then down ∷ [] else [])
unfolding lookup
down_reported_once m h n pos =
    let f =
      HasFailed-finish_hosts m h n 0 start (record { info = ground arith; sent = ground arith }) in
    f.sent ∙ ap (λ (k : ℕ). if leb (pos_part m.times) k then down ∷ [] else []) (omega arith)
