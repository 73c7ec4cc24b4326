-- ===== src/Connect/Tries.antt =====
-- The number of tries of a worker to connect (backend/worker/socket.go, `connectMasterSocket`).
use cronjob.Base.{ℕ, ◌+◌, ◌≤◌, ◌≢◌, List, [], ◌∷◌, length, ltb, arith, Bool-cases, inl, inr}
use cronjob.Connect.{Attempt, inactive, no_url, refused, accepted, waiting, connect_master_socket}

tries_from :
    (times : ℕ) (attempts : List Attempt)
    → 1 ≤ times
    → times ≤ 10
    → 11 ≤ times + length attempts
    → let c = connect_master_socket times attempts in (c.outcome ≢ waiting) × (times + c.dials ≤ 11)
unfolding connect_master_socket
tries_from times [] low high enough = absurd (omega arith)
tries_from times (inactive ∷ rest) low high enough = (λ e. cc e, omega arith)
tries_from times (no_url ∷ rest) low high enough = (λ e. cc e, omega arith)
tries_from times (accepted ∷ rest) low high enough = (λ e. cc e, omega arith)
tries_from times (refused ∷ rest) low high enough = elim (Bool-cases (ltb times 10)) [
  | inl more ↦
      let next = tries_from (times + 1) rest (omega arith) (ground arith) (omega arith) in
      (ground (arith, more, next.0), ground (arith, more, next.1))
  | inr last ↦ (ground (arith, last), ground (arith, last))
]

-- However the attempts go, ten of them settle it: a worker that starts to connect with its first try
-- dials at most ten times and does not wait for another try after that.
pub ten_tries_settle :
    (attempts : List Attempt)
    → 10 ≤ length attempts
    → let c = connect_master_socket 1 attempts in (c.outcome ≢ waiting) × (c.dials ≤ 10)
ten_tries_settle attempts enough =
    let t = tries_from 1 attempts (omega arith) (omega arith) (omega arith) in
    (t.0, omega (arith, t.1))
