-- ===== src/Lib.antt =====
-- A verification of the cronjob system: a master that keeps jobs in a database and in etcd, and
-- workers that run the commands of the jobs at their times, under a lock that the master grants.
--
-- Parts and how they interact. A job that is put into etcd is seen by a watch handler of the master,
-- which sends it to all connected workers over a websocket, framed as a packet. A worker takes the
-- packets apart and hands the events to its scheduler. The scheduler keeps a table of plans and a
-- table of executions, wakes at the next instant of a plan, and starts a goroutine for each
-- execution. The goroutine takes the lock of the job, tells the master, runs the command and hands a
-- result back, which frees the place in the table of executions. While it runs, the lease of the lock
-- is renewed. A log handler collects logs and writes them in lists. The TCP monitor is a tool of its
-- own that checks hosts until all of them answer.
--
-- Files.
--   Base: names of the libraries passed on, and its children: Tests (comparison tests), Lists, Int
--     (integers), Texts (Go strings as lists of code units, %d), Map (a Go map as an association
--     list), Time (instants and durations in nanoseconds).
--   Data: backend/common/datamodels/job.go, jobExecute.go, backend/common/job.go. The package
--     cronexpr is the record Cron, whose law is that Next gives a later instant or the zero time.
--   Packet: backend/common/packet.go. packet_data is PacketData, binary_to_int BinaryToInt,
--     unpacket_data UnPacketData. A slice is its bytes and the spare bytes of its array behind them;
--     a slice expression that passes the capacity is a panic. The fuel of the loop is the number of
--     bytes, of which every round drops one or more.
--   Push: backend/master/sockets/watchJobs.go, watchKill.go, app.go, backend/worker/socket.go.
--     Push.Snapshot has the answer to getJobs, backend/master/sockets/jobs.go, pushJobsToClient.
--     encoding/json is the record Json, whose laws are that what was marshalled is read back. Each
--     write to a websocket is one message that is read whole, which is what websockets do.
--   Connect: backend/worker/socket.go, connectMasterSocket. The list of what its tries meet bounds its
--     recursion; the source counts them up to ten.
--   Scheduler: backend/worker/scheduler.go. try_schedule is TrySchedule, handle_job_event
--     handleJobEvent, try_run_job TryRunJob, handle_job_execute_result HandlerJobExecuteResult. An
--     execution info is reached through a pointer, here its index in `infos`. Scheduler.System has
--     the loops and goroutines as steps that any schedule may order; the part of Worker.Stop
--     (backend/worker/app.go) that concerns the scheduler is one of them. The source reads and writes
--     the table of executions from two goroutines without a lock; here a turn of a loop is one step.
--   Executor: backend/worker/executor.go. execute_job is the goroutine of ExecuteJob, a function of
--     what it meets: the answers of the lock, the master and the shell, and the interrupts before and
--     while the command runs, the stop of the worker among them. The package grequests is the type
--     Reply.
--   Setup: backend/worker/setup.go, with the requests for categories of backend/worker/executor.go.
--     check_or_set_up_job_execute_environment is checkOrSetUpJobExecuteEnvironment; Setup.Members has
--     the start with the configured categories, addExecuteCategory, removeExecuteCategory and the
--     handlers of backend/worker/handlers.go. The record Outside is the master and the shell.
--   JobLock: backend/worker/lock.go. try_lock is TryLock, unlock Unlock, and step_in a step of
--     LeaseLoop, of a request that it makes, of its timer or of the executor.
--   MasterLock: backend/common/repositories/lock.go, backend/master/web/services/lock.go,
--     backend/master/web/controllers/lock.go. post_create, post_lease and delete_release_by are
--     PostCreate, PostLease and DeleteReleaseBy down to etcd, whose client is the record Etcd: its
--     laws say that a key hangs on a granted lease, that a lease is new, that a transaction writes
--     only a key that does not exist, and that revoking deletes the keys of its lease.
--   KeyStore: what jobEtcd.go and killEtcd.go of backend/common/repositories share: the reading,
--     saving and deleting of an object under a key. The record Kv is the part of the client of etcd
--     that they use; KeyStore.Concrete is one that answers always.
--   JobStore: backend/common/repositories/jobEtcd.go, getJobFromEtcd, with the key of a job in etcd and
--     what is stored there. saveJobToEtcd is in Jobs.
--   JobList: backend/common/repositories/jobEtcd.go, listJobsFromEtcd; the record Ranges is a read of
--     the keys below a directory in the order of their creation. The one read with WithFromKey and
--     WithPrefix counts as one with WithPrefix, the later option.
--   Database: a table of the database behind gorm, as the record Table with its laws, and the map of
--     fields of an update; Database.Concrete is a table that answers always.
--   Kills: backend/common/repositories/kill.go, killEtcd.go. save, update_kill, update_by_id and
--     set_finished_by_id are Save, Update, UpdateByID and SetFinishedByID, over the states of the
--     table and of etcd.
--   Executions: backend/common/repositories/jobExecute.go and PutKeyValue of
--     backend/common/datasources/etcd.go. save_execute_log is SaveExecuteLog, kill_by_id KillByID; the
--     record Mongo is the collection of the logs.
--   Categories: backend/common/repositories/category.go, categoryEtcd.go. save, update_category,
--     update_by_id and delete_category are Save, Update, UpdateByID and Delete.
--   Jobs: backend/common/repositories/job.go, with saveJobToEtcd as it calls the database. save,
--     update_job, update_by_id and delete_job are Save, Update, UpdateByID and Delete. Save calls
--     itself through saveJobToEtcd for a job without the ID of its category; the fuel bounds how
--     often, and what stands for the end of the fuel is reached by no job that has that ID.
--   JobWeb: backend/master/web/controllers/job.go, through backend/master/web/services/job.go. put_by
--     and delete_by are PutBy and DeleteBy, update_fields what PutBy finds to change, and atoi
--     strconv.Atoi. JobWeb.Creating has PostCreate, JobWeb.Given the job that a form asks for.
--   CategoryWeb: backend/master/web/controllers/category.go, through
--     backend/master/web/services/category.go. post_create, put_by and delete_by are PostCreate, PutBy
--     and DeleteBy, with GetByName and GetByIdOrName of backend/common/repositories/category.go.
--   LogHandler: backend/worker/logHandler.go. A turn of ConsumeLogsLoop, AddLog and Stop are steps;
--     in the source a Stop may also fall into the middle of a turn, where it may make the loop
--     dereference a nil result. An insertion into MongoDB that fails may have written a part.
--   TcpMonitor: tools/tcpmonitor. The outcomes of the dials are an argument, in the order in which
--     they are counted.
-- Below a component, a file is named for what it proves; Tests have concrete runs.
--
-- Numbers. Counters and IDs are natural numbers: a Go int has 64 bits and none of the counters gets
-- near that. The length field of a packet keeps its wrap-around at 2^32, durations stay within int64
-- as Go's Sub does.
--
-- Not modelled: the lists that the repositories query, the web controllers and services of the master
-- other than those of locks, jobs and categories, the first version of the locks, the registration of
-- workers, the configuration and the DingDing tool; what they do is calls of a database, of etcd or of
-- a web framework.
pub mod Base
pub mod TcpMonitor
pub mod Packet
pub mod Data
pub mod Executor
pub mod Scheduler
pub mod LogHandler
pub mod Push
pub mod Setup
pub mod JobLock
pub mod MasterLock
pub mod JobStore
pub mod KeyStore
pub mod JobList
pub mod Database
pub mod Kills
pub mod Executions
pub mod Categories
pub mod Jobs
pub mod JobWeb
pub mod CategoryWeb
pub mod Connect
