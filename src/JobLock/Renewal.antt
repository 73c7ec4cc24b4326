-- ===== src/JobLock/Renewal.antt =====
-- When the lease of a lock is renewed no more (backend/worker/lock.go, `LeaseLoop`).
use cronjob.Base.{
  ℕ, ◌≡◌, ◌≢◌, refl, sym, subst, ◌∙◌, ◌⊎◌, inl, inr, Bool, true, false, Option, none, some, List,
  [], ◌∷◌, arith, Text, codes, text_eq, All,
}
use cronjob.Base.Int.{ℤ}
use cronjob.Executor.{Result, ok, err}
use cronjob.Executor.Pointer.{Result-cases}
use cronjob.JobLock.{
  failed, answered, BaseResponse, unlock, Phase, Renewing, end_loop, begin_request, timer_case,
  finish_request, Event, ticked, timer_fires, timer_received, close_received, replied, woken,
  unlocked, step_in, run,
}

abbrev pub last_request : List ℤ → Option ℤ
last_request [] = none
last_request (q ∷ qs) = some q

module _ (decode : Text → Result BaseResponse) where
  -- The lease is this one, and once the loop is over it has been asked to release it.
  abbrev IsReleased : ℤ → Renewing → Type 0
  IsReleased lease r =
      (r.lock.lease_id ≡ lease)
      × (r.phase ≡ Phase.over
          → (r.lock.is_active ≡ false) × (last_request r.lock.release_requests ≡ some lease))

  IsReleased-step_in :
      (lease : ℤ) (p : Phase) (e : Event) (r : Renewing)
      → r.phase ≡ p
      → IsReleased lease r
      → IsReleased lease (step_in decode p e r)
  unfolding step_in begin_request timer_case finish_request end_loop unlock
  IsReleased-step_in lease p timer_fires r at x = x
  IsReleased-step_in lease p unlocked r at x = ground arith
  IsReleased-step_in lease Phase.waiting ticked r at x = ground arith
  IsReleased-step_in lease Phase.waiting timer_received r at x = ground arith
  IsReleased-step_in lease Phase.waiting close_received r at x = ground arith
  IsReleased-step_in lease Phase.posting (replied (failed e)) r at x = ground arith
  IsReleased-step_in lease Phase.posting (replied (answered s b)) r at x = ground arith
  IsReleased-step_in lease Phase.sleeping woken r at x = ground arith
  IsReleased-step_in lease p e r at x = x

  IsReleased-run :
      (lease : ℤ) (es : List Event) (r : Renewing)
      → IsReleased lease r
      → IsReleased lease (run decode es r)
  unfolding run
  IsReleased-run lease [] r x = x
  IsReleased-run lease (e ∷ es) r x =
      IsReleased-run lease es (step_in decode r.phase e r)
        (IsReleased-step_in lease r.phase e r refl x)

  -- Whatever happens from any point at which the loop goes on: once it is over, the lock is not active
  -- and the last lease that was asked to be released is its own.
  pub loop_over_releases :
      (es : List Event) (r : Renewing)
      → r.phase ≢ Phase.over
      → (run decode es r).phase ≡ Phase.over
      → ((run decode es r).lock.is_active ≡ false)
        × (last_request (run decode es r).lock.release_requests ≡ some r.lock.lease_id)
  loop_over_releases es r going =
      (IsReleased-run r.lock.lease_id es r (refl, λ e. absurd (going e))).1

  -- A loop that is over sends no kill.
  over-step_in :
      (e : Event) (r : Renewing)
      → let r' = step_in decode Phase.over e r in
        (r'.phase ≡ r.phase) × (r'.lock.need_kill_chan ≡ r.lock.need_kill_chan)
  unfolding step_in unlock
  over-step_in timer_fires r = (refl, refl)
  over-step_in unlocked r = (refl, refl)
  over-step_in e r = (refl, refl)

  over-step :
      (e : Event) (r : Renewing)
      → r.phase ≡ Phase.over
      → let r' = step_in decode r.phase e r in
        (r'.phase ≡ r.phase) × (r'.lock.need_kill_chan ≡ r.lock.need_kill_chan)
  over-step e r over =
      subst
        (λ p.
          let r' = step_in decode p e r in
          (r'.phase ≡ r.phase) × (r'.lock.need_kill_chan ≡ r.lock.need_kill_chan))
        (sym over) (over-step_in e r)

  over-run :
      (es : List Event) (r : Renewing)
      → r.phase ≡ Phase.over
      → (run decode es r).lock.need_kill_chan ≡ r.lock.need_kill_chan
  unfolding run
  over-run [] r over = refl
  over-run (e ∷ es) r over = let kept = over-step e r over in over-run es _ (kept.0 ∙ over) ∙ kept.1

  abbrev pub is_success : Result BaseResponse → Bool
  is_success (ok response) = text_eq response.status (codes "success")
  is_success (err e) = false

  refused_ends :
      (status : ℕ) (bytes : Text) (r : Renewing)
      → is_success (decode bytes) ≡ false
      → finish_request decode (answered status bytes) r ≡ end_loop r
  unfolding finish_request text_eq
  refused_ends status bytes r refused = elim (Result-cases (decode bytes)) [
    | inl (response, found) ↦ ground (arith, found, refused)
    | inr (e, bad) ↦ ground (arith, bad)
  ]

  -- If the master answers a request for renewal with anything but success, then the lock is not active
  -- any more, and no later event sends a kill for the command: the messages in the channel stay as
  -- they were, with or without the timer.
  pub refused_renewal_kills_nothing :
      (status : ℕ) (bytes : Text) (es : List Event) (r : Renewing)
      → r.phase ≡ Phase.posting
      → is_success (decode bytes) ≡ false
      → let r' = step_in decode Phase.posting (replied (answered status bytes)) r in
        (r'.lock.is_active ≡ false)
        × ((run decode es r').lock.need_kill_chan ≡ r.lock.need_kill_chan)
  unfolding step_in end_loop unlock
  refused_renewal_kills_nothing status bytes es r at refused =
      subst
        (λ r'.
          (r'.lock.is_active ≡ false)
          × ((run decode es r').lock.need_kill_chan ≡ r.lock.need_kill_chan))
        (sym (refused_ends status bytes r refused)) (refl, over-run es (end_loop r) refl)

  -- What may happen while the master cannot be reached and the executor waits for its command.
  abbrev pub IsOutage : Event → Type 0
  IsOutage (replied (failed e)) = Unit
  IsOutage woken = Unit
  IsOutage timer_fires = Unit
  IsOutage ticked = Unit
  IsOutage timer_received = Unit
  IsOutage e = ⊥

  abbrev IsTrying : Renewing → Type 0
  IsTrying r = (r.lock.is_active ≡ true) × ((r.phase ≡ Phase.posting) ⊎ (r.phase ≡ Phase.sleeping))

  IsTrying-step_in :
      (e : Event) (p : Phase) (r : Renewing)
      → IsOutage e
      → r.phase ≡ p
      → IsTrying r
      → let r' = step_in decode p e r in
        IsTrying r' × (r'.lock.need_kill_chan ≡ r.lock.need_kill_chan)
  unfolding step_in begin_request finish_request
  IsTrying-step_in timer_fires p r o at x = (x, refl)
  IsTrying-step_in (replied (failed e)) Phase.posting r o at x = ground arith
  IsTrying-step_in woken Phase.sleeping r o at x = ground arith
  IsTrying-step_in e Phase.waiting r o at x = absurd (ground arith)
  IsTrying-step_in unlocked p r o at x = absurd o
  IsTrying-step_in (replied (answered status bytes)) p r o at x = absurd o
  IsTrying-step_in e p r o at x = (x, refl)

  -- As long as the master cannot be reached, and the executor does not unlock, a request for renewal
  -- of an active lock is tried again and again: the lock stays active and no kill is sent, however
  -- often and whenever the timer of 9 seconds expires.
  pub outage_kills_nothing :
      (es : List Event) (r : Renewing)
      → All IsOutage es
      → (r.phase ≡ Phase.posting) ⊎ (r.phase ≡ Phase.sleeping)
      → r.lock.is_active ≡ true
      → let r' = run decode es r in
        (r'.lock.is_active ≡ true) × (r'.lock.need_kill_chan ≡ r.lock.need_kill_chan)
  unfolding run
  outage_kills_nothing [] r o at active = (active, refl)
  outage_kills_nothing (e ∷ es) r (o, os) at active =
      let (x, same) = IsTrying-step_in e r.phase r o refl (active, at) in
      let (on, rest) = outage_kills_nothing es (step_in decode r.phase e r) os x.1 x.0 in
      (on, rest ∙ same)
