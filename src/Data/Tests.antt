-- ===== src/Data/Tests.antt =====
-- The keys of jobs (backend/worker/scheduler.go) on concrete jobs.
use cronjob.Data.{}
