-- ===== src/Scheduler/Wake.antt =====
-- When `TrySchedule` (backend/worker/scheduler.go) wants to be called again.
use cronjob.Base.{
  ℕ, ◌+◌, ◌-◌, min, All-implies, ◌≤◌, ◌<◌, ◌≡◌, refl, subst, Option, none, some, List, [], ◌∷◌,
  if◌then◌else◌, arith, All, Bool-cases, text_eq, lookup, inl, inr, Text,
}
use cronjob.Base.Int.{pos}
use cronjob.Base.Time.{Time, second, minute}
use cronjob.Data.{Cron, JobSchedulePlan}
use cronjob.Scheduler.{
  Scheduler, nearer, schedule_after, is_due, try_run_job, schedule_loop, try_schedule,
}

-- The nearest time is at most `t`.
abbrev pub AtMost : Option Time → Time → Type 0
AtMost none t = ⊥
AtMost (some n) t = n ≤ t

abbrev Later : Time → Option Time → Type 0
Later now none = Unit
Later now (some n) = now < n

AtMost-nearer : (t u : Time) (o : Option Time) → AtMost o u → AtMost (nearer t o) u
unfolding nearer
AtMost-nearer t u none h = elim h [ ]
AtMost-nearer t u (some n) h = ground arith

AtMost-nearer_self : (t : Time) (o : Option Time) → AtMost (nearer t o) t
unfolding nearer
AtMost-nearer_self t none = omega arith
AtMost-nearer_self t (some n) = ground arith

Later-nearer : (now t : Time) (o : Option Time) → now < t → Later now o → Later now (nearer t o)
unfolding nearer
Later-nearer now t none h l = h
Later-nearer now t (some n) h l = ground arith

module _ (cron : Cron) where
  open cron use {Expression, next}

  abbrev Entry : Type 0
  Entry = Text × JobSchedulePlan Expression

  -- The time that the loop leaves in a plan.
  abbrev pub new_time : Time → JobSchedulePlan Expression → Time
  new_time now plan = if is_due now plan then next plan.expression now else plan.next_time

  nearest-kept :
      (now later : Time) (plans : List Entry) (s : Scheduler Expression) (near : Option Time)
      (u : Time)
      → AtMost near u
      → AtMost (schedule_loop cron now later plans s near).2 u
  unfolding schedule_loop
  nearest-kept now later [] s near u a = a
  nearest-kept now later ((k, plan) ∷ plans) s near u a =
      let due = is_due now plan in
      let t = if due then next plan.expression now else plan.next_time in
      let s' = if due then try_run_job later plan s else s in
      nearest-kept now later plans s' (nearer t near) u (AtMost-nearer t u near a)

  -- The nearest time is at most the new time of every plan in the table.
  pub nearest-lookup :
      (now later : Time) (plans : List Entry) (s : Scheduler Expression) (near : Option Time)
      (j : Text) (plan : JobSchedulePlan Expression)
      → lookup j plans ≡ some plan
      → AtMost (schedule_loop cron now later plans s near).2 (new_time now plan)
  unfolding schedule_loop lookup
  nearest-lookup now later [] s near j plan h = cc
  nearest-lookup now later ((k, p) ∷ plans) s near j plan h =
      let t = if is_due now p then next p.expression now else p.next_time in
      let s' = if is_due now p then try_run_job later p s else s in
      elim (Bool-cases (text_eq k j)) [
        | inl same ↦
            let e : some p ≡ some plan = rw same at h in
            let e' : p ≡ plan = cc e in
            subst
              (λ x.
                AtMost (schedule_loop cron now later plans s' (nearer t near)).2 (new_time now x))
              e' (nearest-kept now later plans s' (nearer t near) t (AtMost-nearer_self t near))
        | inr other ↦ nearest-lookup now later plans s' (nearer t near) j plan (rw other at h)
      ]

  -- The expression of every plan has an instant after `now`.
  abbrev pub HasNext : Time → List Entry → Type 0
  HasNext now = All (λ e. now < next e.1.expression now)

  record LoopWakes (now : Time) (near : Option Time)
      (r : List Entry × Scheduler Expression × Option Time) : Type 0 where
    nearest : All (λ e. AtMost r.2 e.1.next_time) r.0
    later : Later now near → Later now r.2

  next_time_later :
      (now : Time) (plan : JobSchedulePlan Expression)
      → now < next plan.expression now
      → now < (if is_due now plan then next plan.expression now else plan.next_time)
  next_time_later now plan h = ground arith

  schedule_loop-LoopWakes :
      (now later : Time) (plans : List Entry) (s : Scheduler Expression) (near : Option Time)
      → HasNext now plans
      → LoopWakes now near (schedule_loop cron now later plans s near)
  unfolding schedule_loop
  schedule_loop-LoopWakes now later [] s near h = record { nearest = tt; later = λ l. l }
  schedule_loop-LoopWakes now later ((k, plan) ∷ plans) s near h =
      let due = is_due now plan in
      let t = if due then next plan.expression now else plan.next_time in
      let s' = if due then try_run_job later plan s else s in
      let ih = schedule_loop-LoopWakes now later plans s' (nearer t near) h.1 in
      record {
        nearest = (
          nearest-kept now later plans s' (nearer t near) t (AtMost-nearer_self t near),
          ih.nearest,
        );
        later = λ l. ih.later (Later-nearer now t near (next_time_later now plan h.0) l);
      }

-- The time that is returned, for a nearest time after now.
schedule_after_bounds :
    (now : Time) (near : Option Time)
    → Later now near
    → (k : ℕ) × (schedule_after now near ≡ pos k)
      × (0 < k)
      × (k ≤ minute)
      × ((t : Time) → AtMost near t → now + k ≤ t)
unfolding schedule_after
schedule_after_bounds now none l = (second, refl, omega arith, omega arith, λ t a. elim a [ ])
schedule_after_bounds now (some n) l =
    (min (n - now) minute, ground arith, omega arith, omega arith, λ t a. omega arith)

module _ (cron : Cron) where
  open cron use {Expression}

  -- If every planned expression has a later instant, `TrySchedule` leaves every plan with a time in
  -- the future, and asks to be called again after a positive time of at most a minute that passes
  -- none of them.
  pub try_schedule_wakes :
      (now later : Time) (s : Scheduler Expression)
      → HasNext cron now s.job_plan_table
      → let (s', d) = try_schedule cron now later s in
        (k : ℕ) × (d ≡ pos k)
        × (0 < k)
        × (k ≤ minute)
        × All (λ e. (now < e.1.next_time) × (now + k ≤ e.1.next_time)) s'.job_plan_table
  unfolding try_schedule
  try_schedule_wakes now later s h =
      let r = schedule_loop cron now later s.job_plan_table s none in
      let w = schedule_loop-LoopWakes cron now later s.job_plan_table s none h in
      let (k, d, pos_k, le, before) = schedule_after_bounds now r.2 (w.later tt) in
      (
        k,
        d,
        pos_k,
        le,
        All-implies r.0 w.nearest
            λ e a. (omega (arith, before e.1.next_time a), before e.1.next_time a),
      )
