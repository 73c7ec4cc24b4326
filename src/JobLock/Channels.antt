-- ===== src/JobLock/Channels.antt =====
-- What is sent to the channels of a lock (backend/worker/lock.go, where both are made for 5
-- messages).
use cronjob.Base.{
  ℕ, suc, ◌+◌, ◌≤◌, ◌≡◌, refl, ◌⊎◌, inr, true, List, [], ◌∷◌, arith, Text, length, length-append,
}
use cronjob.Executor.{Result}
use cronjob.Executor.Pointer.{Result-cases}
use cronjob.JobLock.{
  failed, answered, BaseResponse, unlock, Phase, Renewing, end_loop, begin_request, timer_case,
  finish_request, Event, ticked, timer_fires, timer_received, close_received, replied, woken,
  unlocked, step_in, run,
}

module _ (decode : Text → Result BaseResponse) where
  -- How often the executor unlocks.
  abbrev pub unlocks : List Event → ℕ
  unlocks [] = 0
  unlocks (unlocked ∷ es) = suc (unlocks es)
  unlocks (e ∷ es) = unlocks es

  -- What the loop itself may still send, besides `n` messages that were sent to the channel of closing.
  abbrev IsBounded : ℕ → Renewing → Type 0
  IsBounded n r =
      ((r.phase ≡ Phase.over) × ((r.lock.close_chan ≤ n + 2) × (length r.lock.need_kill_chan ≤ 1)))
      ⊎ ((r.lock.close_chan ≤ n) × (length r.lock.need_kill_chan ≤ 0))

  IsBounded-step_in :
      (n : ℕ) (p : Phase) (e : Event) (r : Renewing)
      → r.phase ≡ p
      → IsBounded n r
      → IsBounded (n + unlocks (e ∷ [])) (step_in decode p e r)
  unfolding step_in begin_request timer_case finish_request end_loop unlock
  IsBounded-step_in n p timer_fires r at x = ground arith
  IsBounded-step_in n p unlocked r at x = ground arith
  IsBounded-step_in n Phase.waiting ticked r at x = ground arith
  IsBounded-step_in n Phase.waiting timer_received r at x =
      ground (arith, length-append r.lock.need_kill_chan (true ∷ []))
  IsBounded-step_in n Phase.waiting close_received r at x = ground arith
  IsBounded-step_in n Phase.posting (replied (failed e)) r at x = ground arith
  IsBounded-step_in n Phase.posting (replied (answered s b)) r at x =
      ground (arith, Result-cases (decode b))
  IsBounded-step_in n Phase.sleeping woken r at x = ground arith
  IsBounded-step_in n p e r at x = ground arith

  unlocks-cons : (e : Event) (es : List Event) → unlocks (e ∷ es) ≡ unlocks (e ∷ []) + unlocks es
  unlocks-cons unlocked es = omega arith
  unlocks-cons e es = omega arith

  IsBounded-run :
      (es : List Event) (n : ℕ) (r : Renewing)
      → IsBounded n r
      → IsBounded (n + unlocks es) (run decode es r)
  unfolding run
  IsBounded-run [] n r x = ground (arith, x)
  IsBounded-run (e ∷ es) n r x = ground (
    arith,
    unlocks-cons e es,
    IsBounded-run es (n + unlocks (e ∷ [])) (step_in decode r.phase e r)
        (IsBounded-step_in n r.phase e r refl x),
  )

  -- From empty channels, whatever happens: no more messages wait in the channel of closing than the
  -- executor has unlocked times and two, and at most one kill is ever sent.
  pub channels_have_room :
      (es : List Event) (r : Renewing)
      → r.lock.close_chan ≡ 0
      → r.lock.need_kill_chan ≡ []
      → let r' = run decode es r in
        (r'.lock.close_chan ≤ unlocks es + 2) × (length r'.lock.need_kill_chan ≤ 1)
  channels_have_room es r none_closed none_killed =
      ground (arith, IsBounded-run es 0 r (inr (ground arith, ground arith)))
