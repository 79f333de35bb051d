-- ===== src/RequestScheduler.antt =====
-- src/appendonlystores/network/RequestScheduler.ts: the gate for requests to one server. A waiter is
-- the number of its request. A step is what runs between two suspensions of the asynchronous code;
-- the clock, the tasks and the order of the steps are the environment's.
pub mod Slots
pub mod Sound
pub mod Fairness
pub mod Pauses
use mindoo_db.Base.{
  ℕ, ◌≡◌, ◌+◌, ◌-◌, ◌≤◌, Bool, true, false, Option, some, none, List, [], ◌∷◌, ◌++◌, if◌then◌else◌,
  ltb, leb, ◌==◌, length, lookup, set, ℕ_discrete, or_else, ◌&&◌, JsString, str_dec,
}

abbrev pub max : ℕ → ℕ → ℕ
max a b = if ltb a b then b else a

abbrev pub min : ℕ → ℕ → ℕ
min a b = if ltb b a then b else a

pub record RequestSchedulerOptions : Type 0 where
  pub max_concurrent : Option ℕ
  pub max_pause_ms : Option ℕ

pub record RequestScheduler : Type 0 where
  pub max_concurrent : ℕ
  pub max_pause_ms : ℕ
  pub active : ℕ
  pub waiters : List ℕ
  pub paused_until : ℕ

abbrev pub new_scheduler : RequestSchedulerOptions → RequestScheduler
new_scheduler options = record {
  max_concurrent = max 1 (or_else options.max_concurrent 6);
  max_pause_ms = or_else options.max_pause_ms 30000;
  active = 0;
  waiters = [];
  paused_until = 0;
}

-- A delay in whole milliseconds, or a number that `pauseFor` refuses.
pub data Delay : Type 0 where
  finite : ℕ → Delay
  negative not_finite : Delay

abbrev pub is_paused : RequestScheduler → ℕ → Bool
is_paused s now = ltb now s.paused_until

unfoldable pub pause_for : Delay → ℕ → RequestScheduler → RequestScheduler
pause_for negative now s = s
pause_for not_finite now s = s
pause_for (finite delay) now s =
    if delay == 0
    then s
    else let until = now + min delay s.max_pause_ms in
      if ltb s.paused_until until then record s { paused_until = until } else s

-- `retryAfterMs`, or 1000 where it is missing or unusable.
unfoldable pub usable_delay : Option Delay → Delay
usable_delay none = finite 1000
usable_delay (some negative) = finite 1000
usable_delay (some not_finite) = finite 1000
usable_delay (some (finite delay)) = if delay == 0 then finite 1000 else finite delay

unfoldable pub pause_for_rate_limit : Option Delay → ℕ → RequestScheduler → RequestScheduler
unfolding pause_for usable_delay
pause_for_rate_limit retry_after now s = pause_for (usable_delay retry_after) now s

-- The slot is taken at once, or the request waits for it.
unfoldable pub acquire_slot : ℕ → RequestScheduler → RequestScheduler × Bool
acquire_slot r s =
    if length s.waiters == 0 && ltb s.active s.max_concurrent
    then (record s { active = s.active + 1 }, true)
    else (record s { waiters = s.waiters ++ (r ∷ []) }, false)

-- The slot goes to the first waiter, if there is one.
abbrev pub hand_over : RequestScheduler → List ℕ → RequestScheduler × Option ℕ
hand_over s [] = (record s { active = s.active - 1 }, none)
hand_over s (next ∷ rest) = (record s { waiters = rest }, some next)

unfoldable pub release_slot : RequestScheduler → RequestScheduler × Option ℕ
release_slot s = hand_over s s.waiters

-- Where a call of `run` stands: at the first `waitOutPause`, before `acquireSlot`, in the queue, at the
-- second `waitOutPause`, in its task, or behind `releaseSlot`.
pub data Phase : Type 0 where
  pausing ready queued holding running done : Phase

pub record System : Type 0 where
  pub gate : RequestScheduler
  pub requests : List (ℕ × Phase)

abbrev pub phase_of : ℕ → System → Option Phase
phase_of r s = lookup ℕ_discrete r s.requests

abbrev pub moved : ℕ → Phase → System → System
moved r p s = record s { requests = set ℕ_discrete r p s.requests }

unfoldable pub acquired : ℕ → System → System
unfolding acquire_slot
acquired r s =
    moved r (if (acquire_slot r s.gate).1 then holding else queued)
      (record s { gate = (acquire_slot r s.gate).0 })

abbrev pub woken : Option ℕ → System → System
woken none s = s
woken (some next) s = moved next holding s

unfoldable pub released : ℕ → System → System
unfolding release_slot
released r s =
    woken (release_slot s.gate).1 (moved r done (record s { gate = (release_slot s.gate).0 }))

-- The steps, each with the number of slots that it releases.
pub data Step (s : System) : ℕ → System → Type 0 where
  arrive : (r : ℕ) → phase_of r s ≡ none → Step s 0 (moved r pausing s)
  leave_pause :
      (r now : ℕ)
      → phase_of r s ≡ some pausing
      → is_paused s.gate now ≡ false
      → Step s 0 (moved r ready s)
  acquire : (r : ℕ) → phase_of r s ≡ some ready → Step s 0 (acquired r s)
  start :
      (r now : ℕ)
      → phase_of r s ≡ some holding
      → is_paused s.gate now ≡ false
      → Step s 0 (moved r running s)
  finish : (r : ℕ) → phase_of r s ≡ some running → Step s 1 (released r s)
  pause :
      (delay : Option Delay) (now : ℕ)
      → Step s 0 (record s { gate = pause_for_rate_limit delay now s.gate })

-- Steps one after another, with the number of slots released.
pub data Run (s : System) : ℕ → System → Type 0 where
  stop : Run s 0 s
  onward : {n m k : ℕ} {t u : System} → Run s n t → Step t m u → k ≡ n + m → Run s k u

-- `getSharedRequestScheduler`: the schedulers by key, and the key of the one returned. The origin of a
-- URL is a parameter, none where `new URL` throws.
unfoldable pub get_shared_request_scheduler :
    (JsString → Option JsString)
    → JsString
    → RequestSchedulerOptions
    → List (JsString × RequestScheduler)
    → List (JsString × RequestScheduler) × JsString
get_shared_request_scheduler origin base_url options shared =
    let key : JsString = or_else (origin base_url) base_url in
    elim (lookup str_dec key shared) [
      | some s ↦ (shared, key)
      | none ↦ (set str_dec key (new_scheduler options) shared, key)
    ]
