-- ===== src/Jobs.antt =====
-- The queue of jobs: libs/jobs/src/queue.cpp. The times are arguments; the lock makes every operation
-- one step.
mod Runs
use endorium_nexus.Prelude.{
  ltb, leb, ◌==◌, if◌then◌else◌, ltb→lt, lt→ltb, le→ltb, leb→le, ==_iff, tests, Bool-cases,
  Option-cases, length, get_elem?, set, take, drop, is_empty, any, keep, All, All-append,
  length-append, length-set, length-take, length-drop, take-append-drop, take-append, drop-append,
  drop-append_le, get_elem?-lt, get_elem?-append, set-append, Outcome, ok, reject, fault, ◌>>=◌,
  ◌>>◌, reject_if, attempt, byte_at, Outcome-cases, Ensures, Ends, returns, rejects, Ensures-bind,
  Ensures-ok, Ensures-ne-fault, Ensures-map, Ensures-attempt, Ensures-guard, Ensures-if, Returns,
  returned, Returns-bind, Returns-attempt, Returns-option, Returns-if, Returns-ok, Returns-Ensures,
  Returns-value, slice-Returns, byte_at-append, byte_at-behind, slice, slice-append, slice-Ensures,
  byte_at-lt, byte_at-Ensures, Text, codes, text_eq, text_eq_refl, text_eq→eq, text_eq_iff, ℤ, pos,
  negsuc, digits_of, to_string, digit_in, digits_run, wrapped, unsigned_run, prefixed_run, run_of,
  signed_run, stoul, is_space, trim_start, trim_end, behind_last, before_last, is_digit,
  decimal_value, unsigned_value, negated, signed_value, stoi, find_char, starts_with,
  starts_with-append, find_text, contains, contains-append, ends_with, to_lower, to_lower_idem,
  map-to_lower_idem, ℕ, zero, suc, ◌+◌, ◌-◌, ◌*◌, ◌/◌, ◌%◌, ◌^◌, ◌≤◌, ◌<◌, min, max, ◌≡◌, refl, sym,
  ap, ◌∙◌, ◌≢◌, ◌↔◌, ◌⊎◌, inl, inr, Bool, true, false, not, ◌&&◌, ◌||◌, Option, none, some, List,
  [], ◌∷◌, ◌++◌, map, append_assoc, append-nil, arith,
}

pub record JobSummary : Type 0 where
  pub id : Text
  pub domain : Text
  pub status : Text
  pub description : Text
  pub submitted_at : Text

unfoldable pub next_job_id : ℕ → Text
next_job_id counter = codes "job-" ++ to_string counter

-- The queue that the constructor makes.
unfoldable pub job_queue : Text → Text → List JobSummary
job_queue first_time second_time =
    record {
      id = codes "job-1";
      domain = codes "pki";
      status = codes "running";
      description = codes "Publish CRL";
      submitted_at = first_time;
    }
    ∷ record {
      id = codes "job-2";
      domain = codes "repo";
      status = codes "pending";
      description = codes "Regenerate Release metadata";
      submitted_at = second_time;
    }
    ∷ []

unfoldable pub new_job : Text → Text → Text → List JobSummary → JobSummary
new_job utc_timestamp domain description jobs = record {
  id = next_job_id (length jobs + 1);
  domain = domain;
  status = codes "pending";
  description = description;
  submitted_at = utc_timestamp;
}

-- The job, and the queue with it.
unfoldable pub enqueue : Text → Text → Text → List JobSummary → JobSummary × List JobSummary
enqueue utc_timestamp domain description jobs =
    let job = new_job utc_timestamp domain description jobs in (job, jobs ++ job ∷ [])

unfoldable pub done : JobSummary → JobSummary
done job = record {
  id = job.id;
  domain = job.domain;
  status = codes "done";
  description = job.description;
  submitted_at = job.submitted_at;
}

-- The first job of the name, if there is one.
unfoldable pub mark_done : Text → List JobSummary → List JobSummary
mark_done id [] = []
mark_done id (job ∷ jobs) =
    let rest = mark_done id jobs in if text_eq job.id id then done job ∷ jobs else job ∷ rest

unfoldable pub is_open : JobSummary → Bool
is_open job = not (text_eq job.status (codes "done"))

unfoldable pub pending_count : List JobSummary → ℕ
pending_count [] = 0
pending_count (job ∷ jobs) = (if is_open job then 1 else 0) + pending_count jobs

-- The jobs are numbered from a number on.
abbrev pub Numbered : ℕ → List JobSummary → Type 0
Numbered counter [] = Unit
Numbered counter (job ∷ jobs) = (job.id ≡ next_job_id counter) × Numbered (counter + 1) jobs

pub data Reachable : List JobSummary → Type 0 where
  created : (first_time second_time : Text) → Reachable (job_queue first_time second_time)
  enqueued :
      (utc_timestamp domain description : Text) (jobs : List JobSummary)
      → Reachable jobs
      → Reachable (enqueue utc_timestamp domain description jobs).1
  marked : (id : Text) (jobs : List JobSummary) → Reachable jobs → Reachable (mark_done id jobs)

Numbered-append :
    (counter : ℕ) (jobs : List JobSummary) (job : JobSummary)
    → Numbered counter jobs
    → job.id ≡ next_job_id (length jobs + counter)
    → Numbered counter (jobs ++ job ∷ [])
Numbered-append counter [] job h e =
    let here : length {A = JobSummary} [] + counter ≡ counter = omega arith in (rw (← here) e, tt)
Numbered-append counter (first ∷ jobs) job h e =
    let shift : length (first ∷ jobs) + counter ≡ length jobs + (counter + 1) = omega arith in
    (h.0, Numbered-append (counter + 1) jobs job h.1 (rw (← shift) e))

if-Numbered :
    (b : Bool) (counter : ℕ) (xs ys : List JobSummary)
    → Numbered counter xs
    → Numbered counter ys
    → Numbered counter (if b then xs else ys)
if-Numbered true counter xs ys h k = h
if-Numbered false counter xs ys h k = k

mark_done-Numbered :
    (counter : ℕ) (id : Text) (jobs : List JobSummary)
    → Numbered counter jobs
    → Numbered counter (mark_done id jobs)
unfolding mark_done done
mark_done-Numbered counter id [] h = tt
mark_done-Numbered counter id (job ∷ jobs) h =
    if-Numbered (text_eq job.id id) counter _ _ (h.0, h.1)
      (h.0, mark_done-Numbered (counter + 1) id jobs h.1)

Reachable-Numbered : (jobs : List JobSummary) → Reachable jobs → Numbered 1 jobs
unfolding job_queue enqueue new_job next_job_id to_string digits_of
Reachable-Numbered _ (created first_time second_time) = (refl, (refl, tt))
Reachable-Numbered _ (enqueued utc_timestamp domain description jobs r) =
    Numbered-append 1 jobs (new_job utc_timestamp domain description jobs)
      (Reachable-Numbered jobs r) refl
Reachable-Numbered _ (marked id jobs r) = mark_done-Numbered 1 id jobs (Reachable-Numbered jobs r)

pending_count-append :
    (jobs : List JobSummary) (job : JobSummary)
    → pending_count (jobs ++ job ∷ []) ≡ pending_count jobs + (if is_open job then 1 else 0)
unfolding pending_count
pending_count-append [] job = omega arith
pending_count-append (first ∷ jobs) job = omega (arith, pending_count-append jobs job)

pending_count-mark_done :
    (id : Text) (jobs : List JobSummary) → pending_count (mark_done id jobs) ≤ pending_count jobs
unfolding mark_done pending_count done is_open text_eq
pending_count-mark_done id [] = omega arith
pending_count-mark_done id (job ∷ jobs) = ground (arith, pending_count-mark_done id jobs)

pending_count-enqueue :
    (utc_timestamp domain description : Text) (jobs : List JobSummary)
    → pending_count (enqueue utc_timestamp domain description jobs).1 ≡ pending_count jobs + 1
unfolding enqueue new_job is_open text_eq
pending_count-enqueue utc_timestamp domain description jobs =
    pending_count-append jobs (new_job utc_timestamp domain description jobs)

-- In a queue that any jobs and marks lead to, the n-th job is named job-n, so that a new job's name is
-- the next one; a new job makes the number of open jobs one larger, and a mark never makes it larger.
pub queue_lem :
    (jobs : List JobSummary)
    → Reachable jobs
    → (utc_timestamp domain description id : Text)
    → Numbered 1 jobs
      × (pending_count (enqueue utc_timestamp domain description jobs).1 ≡ pending_count jobs + 1)
      × (pending_count (mark_done id jobs) ≤ pending_count jobs)
queue_lem jobs reachable utc_timestamp domain description id = (
  Reachable-Numbered jobs reachable,
  pending_count-enqueue utc_timestamp domain description jobs,
  pending_count-mark_done id jobs,
)
