-- ===== src/Connect/Tests.antt =====
-- Connecting to the master (backend/worker/socket.go) with concrete attempts.
use cronjob.Base.{◌≤◌, ◌≢◌, replicate, arith}
use cronjob.Connect.{refused, waiting, connect_master_socket}
use cronjob.Connect.Tries.{ten_tries_settle}

ten_tries_settle_example :
    let c = connect_master_socket 1 (replicate 12 refused) in (c.outcome ≢ waiting) × (c.dials ≤ 10)
ten_tries_settle_example = ten_tries_settle (replicate 12 refused) (omega arith)
