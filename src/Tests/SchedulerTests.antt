-- ===== src/Tests/SchedulerTests.antt =====
-- The gate with one slot and two requests: the second waits until the first is finished.
use mindoo_db.Base.{
  ℕ, ◌≡◌, ◌≤◌, refl, true, Option, some, none, List, [], ◌∷◌, JsString, ℕ_discrete, arith, codes,
  lookup, set,
}
use mindoo_db.RequestScheduler.{
  RequestSchedulerOptions, RequestScheduler, new_scheduler, queued, running, System, phase_of,
  arrive, leave_pause, acquire, start, finish, Run, stop, onward, get_shared_request_scheduler,
  acquired, released,
}
use mindoo_db.RequestScheduler.Slots.{slots}
use mindoo_db.RequestScheduler.Fairness.{
  new_system, limit, served, slots-Run, served-Run_of_releases,
}
use mindoo_db.RequestScheduler.Pauses.{get_shared_request_scheduler_once}

abbrev one_slot : RequestSchedulerOptions
one_slot = record { max_concurrent = some 1; max_pause_ms = none }

abbrev gate_at : ℕ → List ℕ → RequestScheduler
gate_at active waiters = record {
  max_concurrent = 1;
  max_pause_ms = 30000;
  active = active;
  waiters = waiters;
  paused_until = 0;
}

-- Request 1 runs and request 2 is queued.
abbrev waiting : System
waiting = record { gate = gate_at 1 (2 ∷ []); requests = (1, running) ∷ (2, queued) ∷ [] }

waiting-Run : Run (new_system one_slot) 0 waiting
unfolding acquired lookup set ℕ_discrete
waiting-Run =
    onward
      (onward
        (onward
          (onward
            (onward (onward (onward stop (arrive 1 refl) refl) (arrive 2 refl) refl)
              (leave_pause 1 5 refl refl) refl)
            (leave_pause 2 5 refl refl) refl)
          (acquire 1 refl) refl)
        (acquire 2 refl) refl)
      (start 1 6 refl refl) refl

slots-Run_example :
    (slots waiting.requests ≤ limit one_slot)
    × ((r : ℕ) → phase_of r waiting ≡ some queued → slots waiting.requests ≡ limit one_slot)
slots-Run_example = slots-Run one_slot waiting-Run

served-Run_of_releases_example : served (phase_of 2 (released 1 waiting)) ≡ true
unfolding lookup ℕ_discrete
served-Run_of_releases_example =
    served-Run_of_releases 2 0 (onward stop (finish 1 refl) refl) refl (omega arith)

abbrev idle : RequestScheduler
idle = new_scheduler one_slot

-- Every URL of the test is on one host.
abbrev one_host : JsString → Option JsString
one_host url = some (codes "https://a.example")

get_shared_request_scheduler_once_example :
    get_shared_request_scheduler one_host
      (codes "https://a.example/db2")
      one_slot
      (get_shared_request_scheduler one_host (codes "https://a.example/db1") one_slot []).0
    ≡ get_shared_request_scheduler one_host (codes "https://a.example/db1") one_slot []
get_shared_request_scheduler_once_example =
    get_shared_request_scheduler_once one_host (codes "https://a.example/db1")
      (codes "https://a.example/db2") (codes "https://a.example") one_slot one_slot [] refl refl
