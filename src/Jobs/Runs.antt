-- ===== src/Jobs/Runs.antt =====
-- A concrete queue, and the theorem on it.
use endorium_nexus.Jobs.{
  JobSummary, job_queue, enqueue, mark_done, pending_count, Numbered, created, marked, queue_lem,
}
use endorium_nexus.Prelude.{codes, ◌+◌, ◌≤◌, ◌≡◌, List}

abbrev one_done : List JobSummary
one_done = mark_done (codes "job-2") (job_queue (codes "a") (codes "b"))

queue_lem_example :
    Numbered 1 one_done
    × (pending_count (enqueue (codes "c") (codes "dns") (codes "Reload") one_done).1
        ≡ pending_count one_done + 1)
    × (pending_count (mark_done (codes "job-1") one_done) ≤ pending_count one_done)
queue_lem_example =
    queue_lem one_done (marked (codes "job-2") _ (created (codes "a") (codes "b"))) (codes "c")
      (codes "dns") (codes "Reload") (codes "job-1")
