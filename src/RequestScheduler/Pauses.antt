-- ===== src/RequestScheduler/Pauses.antt =====
-- How long a pause lasts, and which scheduler a server's transports share.
use mindoo_db.Base.{
  ℕ, ◌≡◌, ◌+◌, ◌≤◌, inl, inr, false, Option, some, none, List, JsString, str_dec, lookup,
  lookup-set, Option-cases, arith, ltb, if◌then◌else◌,
}
use mindoo_db.RequestScheduler.{
  RequestSchedulerOptions, RequestScheduler, new_scheduler, Delay, finite, negative, not_finite,
  is_paused, pause_for_rate_limit, get_shared_request_scheduler, max,
}

-- A rate limit at a time, whatever `Retry-After` says, never shortens a pause, and lets requests
-- through from the old end of the pause or the cap after that time on, whichever is later; without a
-- usable delay the pause is of one second, or of the cap if that is less.
pub pause_for_rate_limit_bounds :
    (retry_after : Option Delay) (now : ℕ) (s : RequestScheduler)
    → (s.paused_until ≤ (pause_for_rate_limit retry_after now s).paused_until)
      × ((later : ℕ)
          → s.paused_until ≤ later
          → now + s.max_pause_ms ≤ later
          → is_paused (pause_for_rate_limit retry_after now s) later ≡ false)
      × ((pause_for_rate_limit none now s).paused_until
          ≡ max s.paused_until (now + (if ltb s.max_pause_ms 1000 then s.max_pause_ms else 1000)))
unfolding pause_for_rate_limit
pause_for_rate_limit_bounds none now s =
    (ground arith, λ later old capped. ground arith, ground arith)
pause_for_rate_limit_bounds (some negative) now s =
    (ground arith, λ later old capped. ground arith, ground arith)
pause_for_rate_limit_bounds (some not_finite) now s =
    (ground arith, λ later old capped. ground arith, ground arith)
pause_for_rate_limit_bounds (some (finite d)) now s =
    (ground arith, λ later old capped. ground arith, ground arith)

-- Two URLs with one origin are given one scheduler: once it is there, another call with any options
-- returns it and changes none.
pub get_shared_request_scheduler_once :
    (origin : JsString → Option JsString) (a b o : JsString)
    (options options' : RequestSchedulerOptions) (shared : List (JsString × RequestScheduler))
    → origin a ≡ some o
    → origin b ≡ some o
    → get_shared_request_scheduler origin b options'
        (get_shared_request_scheduler origin a options shared).0
      ≡ get_shared_request_scheduler origin a options shared
unfolding get_shared_request_scheduler
get_shared_request_scheduler_once origin a b o options options' shared ha hb =
    elim (Option-cases (lookup str_dec o shared)) [
      | inl new ↦ ground (arith, lookup-set str_dec o o (new_scheduler options) shared)
      | inr (s, found) ↦ ground arith
    ]
