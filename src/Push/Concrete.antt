-- ===== src/Push/Concrete.antt =====
-- A concrete encoding of the messages between the master (backend/master/sockets) and a worker
-- (backend/worker/socket.go), in which a text is its length and its code units, and a worker on which a
-- job executes.
use cronjob.Base.{
  ℕ, zero, suc, ◌+◌, ◌==◌, ◌≡◌, refl, ap, inr, Bool, true, false, Option, none, some, [], ◌∷◌, ◌++◌,
  Text, codes, arith, length, take, drop,
}
use cronjob.Base.Int.{ℤ, pos, negsuc}
use cronjob.Data.{JobExecuteInfo, Cron, JobEtcd, EventType, JobEvent}
use cronjob.Scheduler.{Scheduler}
use cronjob.Packet.{Bytes}
use cronjob.Packet.RoundTrip.{take-length-append, drop-length-append}
use cronjob.Push.{Json}

abbrev pub put_text : Text → Bytes → Bytes
put_text t rest = length t ∷ (t ++ rest)

abbrev pub text_of : Bytes → Text
text_of [] = []
text_of (n ∷ bs) = take n bs

abbrev pub behind_text : Bytes → Bytes
behind_text [] = []
behind_text (n ∷ bs) = drop n bs

abbrev pub head : Bytes → ℕ
head [] = 0
head (b ∷ bs) = b

abbrev pub bit : Bool → ℕ
bit true = 1
bit false = 0

pub bit_back : (b : Bool) → (bit b == 1) ≡ b
bit_back true = refl
bit_back false = refl

abbrev pub int_code : ℤ → Bytes
int_code (pos n) = 0 ∷ n ∷ []
int_code (negsuc n) = 1 ∷ n ∷ []

abbrev pub int_of : Bytes → ℤ
int_of (zero ∷ n ∷ _) = pos n
int_of (_ ∷ n ∷ _) = negsuc n
int_of _ = pos 0

pub int_back : (z : ℤ) → int_of (int_code z) ≡ z
int_back (pos n) = refl
int_back (negsuc n) = refl

abbrev pub encode_job : JobEtcd → Bytes
encode_job j =
    j.id
    ∷ j.created_at
    ∷ bit j.is_active
    ∷ bit j.save_output
    ∷ put_text j.category (
        put_text j.name
          (put_text j.time (put_text j.command (put_text j.description (int_code j.timeout)))))

abbrev pub decode_job : Bytes → Option JobEtcd
decode_job (id ∷ created ∷ active ∷ save ∷ bs) =
    let name = behind_text bs in
    let time = behind_text name in
    let command = behind_text time in
    let description = behind_text command in
    some (record {
      id = id;
      created_at = created;
      category = text_of bs;
      name = text_of name;
      time = text_of time;
      command = text_of command;
      description = text_of description;
      is_active = active == 1;
      save_output = save == 1;
      timeout = int_of (behind_text description);
    })
decode_job _ = none

pub job_back : (j : JobEtcd) → decode_job (encode_job j) ≡ some j
job_back j = simp (take-length-append, drop-length-append, bit_back, int_back)

abbrev pub event_code : EventType → ℕ
event_code EventType.put = 0
event_code EventType.delete = 1
event_code EventType.kill = 2

abbrev pub with_event : EventType → Option JobEtcd → Option JobEvent
with_event t none = none
with_event t (some j) = some (record { event = t; job = j })

abbrev pub decode_event : Bytes → Option JobEvent
decode_event (zero ∷ bs) = with_event EventType.put (decode_job bs)
decode_event (suc zero ∷ bs) = with_event EventType.delete (decode_job bs)
decode_event (suc (suc zero) ∷ bs) = with_event EventType.kill (decode_job bs)
decode_event _ = none

pub event_back :
    (t : EventType) (j : JobEtcd)
    → decode_event (event_code t ∷ encode_job j) ≡ some (record { event = t; job = j })
event_back EventType.put j = ap (with_event EventType.put) (job_back j)
event_back EventType.delete j = ap (with_event EventType.delete) (job_back j)
event_back EventType.kill j = ap (with_event EventType.kill) (job_back j)

abbrev pub coded : Json
coded = record {
  decode_job = decode_job;
  decode_kill = λ b. some (record { category = text_of b; job_id = head (behind_text b) });
  encode_event = λ e. event_code e.event ∷ encode_job e.job;
  decode_event = decode_event;
  encode_message = λ m. put_text m.category m.body;
  decode_message = λ b. some (record { category = text_of b; body = behind_text b });
  event_back = λ e. event_back e.event e.job;
  message_back = λ m. simp (take-length-append, drop-length-append);
}

abbrev pub every : Cron
every = record {
  Expression = ℕ;
  parse = λ t. some (length t);
  next = λ n t. t + suc n;
  next_later = λ n t. inr (omega arith);
}

abbrev pub job : ℕ → JobEtcd
job id = record {
  id = id;
  created_at = 1;
  category = codes "ops";
  name = codes "x";
  time = 4 ∷ [];
  command = codes "ls";
  description = [];
  is_active = true;
  save_output = true;
  timeout = pos 0;
}

abbrev pub running : JobExecuteInfo
running = record {
  job = job 1;
  job_execute_id = 31;
  plan_time = 5;
  execute_time = 6;
  cancelled = false;
  status = [];
}

-- A worker on which the first job executes.
abbrev pub executing : Scheduler ℕ
executing = record {
  job_plan_table = [];
  job_executing_table = (codes "ops-1", 0) ∷ [];
  infos = running ∷ [];
  goroutines = 0 ∷ [];
  job_result_chan = [];
  is_stoped = false;
}
