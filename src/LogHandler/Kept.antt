-- ===== src/LogHandler/Kept.antt =====
-- Where the logs are that a worker adds to its log handler (backend/worker/logHandler.go).
use cronjob.Base.{
  ℕ, ◌≤◌, ◌≡◌, refl, ◌∙◌, sym, ap, subst, Bool, true, false, ◌&&◌, ◌==◌, Option, none, some, List,
  [], ◌∷◌, ◌++◌, arith, take, length, ltb, leb, if◌then◌else◌,
}
use cronjob.LogHandler.{
  LogHandler, Answer, taken, refused, inserted, insert_many_log_list, loop_end, loop_test,
  insert_part, receive, turn_received, turn_expired, add_log, stop, Event, added, received, expired,
  stopped, step, run, started,
}
use mathlib.Core.List.{append_assoc, append-nil}
use cronjob.LogHandler.Counted.{
  count, count-append, take_none, Keeps, Keeps-same, Keeps-trans, Keeps-append,
}

-- The logs among pointers.
abbrev pub logs : List (Option ℕ) → List ℕ
logs [] = []
logs (none ∷ ls) = logs ls
logs (some l ∷ ls) = l ∷ logs ls

-- All logs of the handler, the oldest first.
abbrev pub all_logs : LogHandler → List ℕ
all_logs h = h.written ++ (h.log_list ++ logs h.log_chan)

-- The logs that a schedule adds.
abbrev pub added_logs : List Event → List ℕ
added_logs [] = []
added_logs (added none ∷ es) = added_logs es
added_logs (added (some l) ∷ es) = l ∷ added_logs es
added_logs (received a b ∷ es) = added_logs es
added_logs (expired a b ∷ es) = added_logs es
added_logs (stopped a ∷ es) = added_logs es

-- No insertion of this schedule fails with some of its logs written.
abbrev is_whole : Answer → Bool
is_whole taken = true
is_whole (refused n) = n == 0

abbrev pub all_whole : List Event → Bool
all_whole [] = true
all_whole (added l ∷ es) = all_whole es
all_whole (received a b ∷ es) = is_whole a && (is_whole b && all_whole es)
all_whole (expired a b ∷ es) = is_whole a && (is_whole b && all_whole es)
all_whole (stopped a ∷ es) = is_whole a && all_whole es

logs-append : (xs ys : List (Option ℕ)) → logs (xs ++ ys) ≡ logs xs ++ logs ys
logs-append [] ys = refl
logs-append (none ∷ xs) ys = logs-append xs ys
logs-append (some l ∷ xs) ys = ap (λ r. l ∷ r) (logs-append xs ys)

Keeps-if :
    (w b : Bool) (h h' : LogHandler) (x : List ℕ)
    → Keeps w (all_logs h) x
    → Keeps w (all_logs h') x
    → Keeps w (all_logs (if b then h else h')) x
Keeps-if w true h h' x k k' = k
Keeps-if w false h h' x k k' = k'

Keeps-inserted :
    (a : Answer) (h : LogHandler) → Keeps (is_whole a) (all_logs (inserted a h)) (all_logs h)
Keeps-inserted taken h = Keeps-same true _ _ (append_assoc h.written h.log_list (logs h.log_chan))
Keeps-inserted (refused n) h =
    let rest = h.log_list ++ logs h.log_chan in
    (
      λ l. omega (
        arith,
        count-append l (h.written ++ take n h.log_list) rest,
        count-append l h.written (take n h.log_list),
        count-append l h.written rest,
      ),
      λ none_written.
          ap (λ r. (h.written ++ r) ++ rest) (take_none n h.log_list none_written)
          ∙ ap (λ r. r ++ rest) (append-nil h.written),
    )

Keeps-insert_many_log_list :
    (a : Answer) (h : LogHandler)
    → Keeps (is_whole a) (all_logs (insert_many_log_list a h)) (all_logs h)
unfolding insert_many_log_list
Keeps-insert_many_log_list a h =
    Keeps-if (is_whole a) (ltb 0 (length h.log_list)) (inserted a h) h (all_logs h)
      (Keeps-inserted a h) (Keeps-same (is_whole a) _ _ refl)

Keeps-loop_end :
    (a : Answer) (h : LogHandler) → Keeps (is_whole a) (all_logs (loop_end a h)) (all_logs h)
unfolding loop_end
Keeps-loop_end a h =
    Keeps-if (is_whole a) (ltb 0 (length h.log_list))
      (record (insert_many_log_list a h) { looping = false }) (record h { looping = false })
      (all_logs h) (Keeps-insert_many_log_list a h) (Keeps-same (is_whole a) _ _ refl)

Keeps-loop_test :
    (a : Answer) (h : LogHandler) → Keeps (is_whole a) (all_logs (loop_test a h)) (all_logs h)
unfolding loop_test
Keeps-loop_test a h =
    Keeps-if (is_whole a) h.is_active h (loop_end a h) (all_logs h)
      (Keeps-same (is_whole a) _ _ refl) (Keeps-loop_end a h)

Keeps-insert_part :
    (a : Answer) (h : LogHandler) → Keeps (is_whole a) (all_logs (insert_part a h)) (all_logs h)
unfolding insert_part
Keeps-insert_part a h =
    Keeps-if (is_whole a) (ltb 0 (length h.log_list)) (insert_many_log_list a h) h (all_logs h)
      (Keeps-insert_many_log_list a h) (Keeps-same (is_whole a) _ _ refl)

Keeps-receive :
    (a : Answer) (l : ℕ) (h : LogHandler)
    → Keeps
        (is_whole a)
        (all_logs (receive a l h))
        (h.written ++ (h.log_list ++ l ∷ logs h.log_chan))
unfolding receive
Keeps-receive a l h =
    let h' = record h { log_list = h.log_list ++ l ∷ [] } in
    let same : all_logs h' ≡ h.written ++ (h.log_list ++ l ∷ logs h.log_chan) =
      ap (λ r. h.written ++ r) (append_assoc h.log_list (l ∷ []) (logs h.log_chan)) in
    subst (Keeps (is_whole a) (all_logs (receive a l h))) same (
      Keeps-if (is_whole a) (leb 50 (length h'.log_list)) (insert_part a h') h' (all_logs h')
        (Keeps-insert_part a h') (Keeps-same (is_whole a) _ _ refl))

Keeps-turn_received :
    (a b : Answer) (chan : List (Option ℕ)) (h : LogHandler)
    → h.log_chan ≡ chan
    → Keeps (is_whole a && is_whole b) (all_logs (turn_received a b chan h)) (all_logs h)
unfolding turn_received
Keeps-turn_received a b [] h e = Keeps-same (is_whole a && is_whole b) _ _ refl
Keeps-turn_received a b (none ∷ rest) h e =
    let k = Keeps-loop_end b (record h { log_chan = rest }) in
    rw e (k.0, λ both. k.1 (ground (arith, both)))
Keeps-turn_received a b (some l ∷ rest) h e =
    let h' = record h { log_chan = rest } in
    rw e (
      Keeps-trans (is_whole a) (is_whole b) _ _ _ (Keeps-receive a l h')
        (Keeps-loop_test b (receive a l h')))

all_logs-add_log :
    (l : Option ℕ) (h : LogHandler) → all_logs (add_log l h) ≡ all_logs h ++ logs (l ∷ [])
unfolding add_log
all_logs-add_log l h =
    ap (λ r. h.written ++ (h.log_list ++ r)) (logs-append h.log_chan (l ∷ []))
    ∙ ap (λ r. h.written ++ r) (sym (append_assoc h.log_list (logs h.log_chan) (logs (l ∷ []))))
    ∙ sym (append_assoc h.written (h.log_list ++ logs h.log_chan) (logs (l ∷ [])))

-- A turn of the loop, if it goes on, adds no log.
Keeps-turn :
    (a b : Answer) (h h' : LogHandler)
    → Keeps (is_whole a && is_whole b) (all_logs h') (all_logs h)
    → Keeps
        (is_whole a && (is_whole b && true))
        (all_logs (if h.looping then h' else h))
        (all_logs h ++ [])
Keeps-turn a b h h' k =
    let whole : (is_whole a && is_whole b) ≡ (is_whole a && (is_whole b && true)) = ground arith in
    subst (λ w. Keeps w (all_logs (if h.looping then h' else h)) (all_logs h ++ [])) whole
      (subst (Keeps (is_whole a && is_whole b) (all_logs (if h.looping then h' else h)))
        (sym (append-nil (all_logs h)))
        (Keeps-if (is_whole a && is_whole b) h.looping h' h (all_logs h) k
          (Keeps-same (is_whole a && is_whole b) _ _ refl)))

Keeps-step :
    (e : Event) (h : LogHandler)
    → Keeps (all_whole (e ∷ [])) (all_logs (step e h)) (all_logs h ++ added_logs (e ∷ []))
unfolding step turn_expired stop
Keeps-step (added none) h = Keeps-same true _ _ (all_logs-add_log none h)
Keeps-step (added (some l)) h = Keeps-same true _ _ (all_logs-add_log (some l) h)
Keeps-step (received a b) h =
    Keeps-turn a b h (turn_received a b h.log_chan h) (Keeps-turn_received a b h.log_chan h refl)
Keeps-step (expired a b) h = Keeps-turn a b h (turn_expired a b h) (
    Keeps-trans (is_whole a) (is_whole b) _ _ _ (Keeps-insert_part a h)
      (Keeps-loop_test b (insert_part a h)))
Keeps-step (stopped a) h =
    let k = Keeps-insert_many_log_list a (record h { is_active = false }) in
    rw (append-nil (all_logs h)) (k.0, λ w. k.1 (ground (arith, w)))

added_logs-cons :
    (e : Event) (es : List Event)
    → (added_logs (e ∷ []) ++ added_logs es ≡ added_logs (e ∷ es))
      × ((all_whole (e ∷ []) && all_whole es) ≡ all_whole (e ∷ es))
added_logs-cons (added none) es = (refl, refl)
added_logs-cons (added (some l)) es = (refl, refl)
added_logs-cons (received a b) es = (refl, ground arith)
added_logs-cons (expired a b) es = (refl, ground arith)
added_logs-cons (stopped a) es = (refl, ground arith)

Keeps-run :
    (es : List Event) (h : LogHandler)
    → Keeps (all_whole es) (all_logs (run es h)) (all_logs h ++ added_logs es)
unfolding run
Keeps-run [] h = Keeps-same true _ _ (sym (append-nil (all_logs h)))
Keeps-run (e ∷ es) h =
    let (same, whole) = added_logs-cons e es in
    let one = Keeps-append (all_whole (e ∷ [])) _ _ (added_logs es) (Keeps-step e h) in
    let old : (all_logs h ++ added_logs (e ∷ [])) ++ added_logs es
        ≡ all_logs h ++ added_logs (e ∷ es) =
      append_assoc (all_logs h) (added_logs (e ∷ [])) (added_logs es)
      ∙ ap (λ r. all_logs h ++ r) same in
    subst (λ w. Keeps w (all_logs (run es (step e h))) (all_logs h ++ added_logs (e ∷ es))) whole
      (subst (Keeps (all_whole (e ∷ []) && all_whole es) (all_logs (run es (step e h)))) old
        (Keeps-trans (all_whole (e ∷ [])) (all_whole es) _ _ _ one (Keeps-run es (step e h))))

-- Whatever the database answers, and wherever between two turns of its loop the handler is stopped, no
-- log is lost: each is in the database, in the list and in the channel together at least as often as
-- it was added.
pub no_log_lost :
    (es : List Event) (l : ℕ) → count l (added_logs es) ≤ count l (all_logs (run es started))
no_log_lost es l = (Keeps-run es started).0 l

-- If no insertion fails with some of its logs written, then wherever between two turns of its loop the
-- handler is stopped, the logs in the database, then those in the list, then those in the channel are
-- the logs that were added, each once and in their order.
pub logs_in_order :
    (es : List Event) → all_whole es ≡ true → all_logs (run es started) ≡ added_logs es
logs_in_order es whole = (Keeps-run es started).1 whole
