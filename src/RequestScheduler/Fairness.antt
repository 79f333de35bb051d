-- ===== src/RequestScheduler/Fairness.antt =====
-- Runs of the gate from a new scheduler: the bound on what is in flight, and the order of the waiters.
use mindoo_db.Base.{
  ℕ, zero, suc, ◌≡◌, ◌+◌, ◌≤◌, ◌<◌, ◌⊎◌, inl, inr, refl, ◌∙◌, sym, Bool, true, false, Option, some,
  none, List, [], ◌∷◌, ◌++◌, lookup, arith, get_elem?, or_else, Bool-cases, List-cases, subst,
}
use mindoo_db.RequestScheduler.{
  RequestSchedulerOptions, new_scheduler, Phase, pausing, ready, queued, holding, running, done,
  System, phase_of, moved, Step, arrive, leave_pause, acquire, start, finish, pause, Run, stop,
  onward, acquired, released, max,
}
use mindoo_db.RequestScheduler.Slots.{
  phase-moved, slots, pause_lem, acquired_lem, released_lem, is_free, after_releasing,
}
use mindoo_db.RequestScheduler.Sound.{IsSound, Step-IsSound}

abbrev pub new_system : RequestSchedulerOptions → System
new_system options = record { gate = new_scheduler options; requests = [] }

-- `maxConcurrent` of a scheduler with the options.
abbrev pub limit : RequestSchedulerOptions → ℕ
limit options = max 1 (or_else options.max_concurrent 6)

new_system-IsSound : (options : RequestSchedulerOptions) → IsSound (new_system options)
unfolding lookup
new_system-IsSound options = record {
  counted = refl;
  bounded = omega arith;
  positive = ground arith;
  full = inl refl;
  distinct = tt;
  waiting = λ r h. cc;
  listed = λ r h. cc;
}

Run-IsSound : {s t : System} {n : ℕ} → IsSound s → Run s n t → IsSound t
Run-IsSound i stop = i
Run-IsSound i (onward run step same) = Step-IsSound step (Run-IsSound i run)

limit-acquired : (r : ℕ) (s : System) → (acquired r s).gate.max_concurrent ≡ s.gate.max_concurrent
limit-acquired r s = elim (Bool-cases (is_free s.gate)) [
  | inl free ↦ rw (acquired_lem r s, free)
  | inr full ↦ rw (acquired_lem r s, full)
]

limit-released : (r : ℕ) (s : System) → (released r s).gate.max_concurrent ≡ s.gate.max_concurrent
limit-released r s = elim (List-cases s.gate.waiters) [
  | inl nobody ↦ rw (released_lem r s [] nobody)
  | inr (next, rest, queue) ↦ rw (released_lem r s (next ∷ rest) queue)
]

limit-Step : {s t : System} {n : ℕ} → Step s n t → t.gate.max_concurrent ≡ s.gate.max_concurrent
limit-Step (arrive r h) = refl
limit-Step (leave_pause r now h u) = refl
limit-Step {s} (acquire r h) = limit-acquired r s
limit-Step (start r now h u) = refl
limit-Step {s} (finish r h) = limit-released r s
limit-Step {s} (pause d now) = (pause_lem d now s.gate).0

limit-Run : {s t : System} {n : ℕ} → Run s n t → t.gate.max_concurrent ≡ s.gate.max_concurrent
limit-Run stop = refl
limit-Run (onward run step same) = limit-Step step ∙ limit-Run run

-- In every state that a new scheduler reaches, by whatever steps of its requests and pauses, the
-- requests that hold a slot are at most the configured limit, and exactly as many while some request
-- is queued: no slot is lost, and none is idle while a request waits.
pub slots-Run :
    (options : RequestSchedulerOptions) {n : ℕ} {t : System}
    → Run (new_system options) n t
    → (slots t.requests ≤ limit options)
      × ((r : ℕ) → phase_of r t ≡ some queued → slots t.requests ≡ limit options)
slots-Run options {t = t} run =
    let i = Run-IsSound (new_system-IsSound options) run in
    let same = limit-Run run in
    (
      omega (arith, i.counted, i.bounded, same),
      λ r q. elim i.full [
        | inl nobody ↦ absurd (ground (arith, i.listed r q, nobody))
        | inr all_taken ↦ i.counted ∙ all_taken ∙ same
      ],
    )

-- The request has had, or has, a slot.
abbrev pub served : Option Phase → Bool
served none = false
served (some pausing) = false
served (some ready) = false
served (some queued) = false
served (some holding) = true
served (some running) = true
served (some done) = true

served-after_releasing :
    (r r' : ℕ) (s : System) (ws : List ℕ)
    → served (phase_of r s) ≡ true
    → served (phase_of r (after_releasing r' s ws)) ≡ true
served-after_releasing r r' s [] h = ground (arith, phase-moved r' r done s)
served-after_releasing r r' s (next ∷ rest) h =
    ground (arith, phase-moved next r holding (moved r' done s), phase-moved r' r done s)

served-Step :
    (r : ℕ) {s t : System} {n : ℕ}
    → Step s n t
    → served (phase_of r s) ≡ true
    → served (phase_of r t) ≡ true
served-Step r {s} (arrive r' none_yet) h = ground (arith, phase-moved r' r pausing s)
served-Step r {s} (leave_pause r' now p u) h = ground (arith, phase-moved r' r ready s)
served-Step r {s} (acquire r' p) h =
    ground (arith, acquired_lem r' s, phase-moved r' r holding s, phase-moved r' r queued s)
served-Step r {s} (start r' now p u) h = ground (arith, phase-moved r' r running s)
served-Step r {s} (finish r' p) h =
    rw (released_lem r' s s.gate.waiters refl) (served-after_releasing r r' s s.gate.waiters h)
served-Step r (pause d now) h = h

served-Run :
    (r : ℕ) {s t : System} {n : ℕ}
    → Run s n t
    → served (phase_of r s) ≡ true
    → served (phase_of r t) ≡ true
served-Run r stop h = h
served-Run r (onward run step same) h = served-Step r step (served-Run r run h)

get_elem?-append :
    (k r x : ℕ) (ws : List ℕ) → get_elem? ws k ≡ some r → get_elem? (ws ++ (x ∷ [])) k ≡ some r
get_elem?-append k r x [] h = cc
get_elem?-append zero r x (w ∷ ws) h = h
get_elem?-append (suc k) r x (w ∷ ws) h = get_elem?-append k r x ws h

-- Where a waiter stands after a step: it is served, or that many places further on as slots were
-- released.
abbrev Advances : ℕ → ℕ → ℕ → System → Type 0
Advances r k n t =
    (served (phase_of r t) ≡ true)
    ⊎ ((k' : ℕ) × (get_elem? t.gate.waiters k' ≡ some r) × (k' + n ≡ k))

Advances-after_releasing :
    (r r' k : ℕ) (s : System) (ws : List ℕ)
    → get_elem? ws k ≡ some r
    → Advances r k 1 (after_releasing r' s ws)
Advances-after_releasing r r' k s [] h = absurd (ground arith)
Advances-after_releasing r r' zero s (next ∷ rest) h =
    inl (ground (arith, phase-moved next r holding (moved r' done s)))
Advances-after_releasing r r' (suc k) s (next ∷ rest) h = inr (k, h, omega arith)

Advances-acquired :
    (r r' k : ℕ) (s : System) → get_elem? s.gate.waiters k ≡ some r → Advances r k 0 (acquired r' s)
Advances-acquired r r' k s h = elim (Bool-cases (is_free s.gate)) [
  | inl free ↦ rw (acquired_lem r' s, free) (inr (k, h, omega arith))
  | inr full ↦
      rw (acquired_lem r' s, full) (inr (k, get_elem?-append k r r' s.gate.waiters h, omega arith))
]

Advances-Step :
    (r k : ℕ) {s t : System} {n : ℕ}
    → Step s n t
    → get_elem? s.gate.waiters k ≡ some r
    → Advances r k n t
Advances-Step r k (arrive r' p) h = inr (k, h, omega arith)
Advances-Step r k (leave_pause r' now p u) h = inr (k, h, omega arith)
Advances-Step r k {s} (acquire r' p) h = Advances-acquired r r' k s h
Advances-Step r k (start r' now p u) h = inr (k, h, omega arith)
Advances-Step r k {s} (finish r' p) h =
    subst (Advances r k 1) (sym (released_lem r' s s.gate.waiters refl))
      (Advances-after_releasing r r' k s s.gate.waiters h)
Advances-Step r k {s} (pause d now) h = inr (k, rw ((pause_lem d now s.gate).2) h, omega arith)

-- After a whole run, with what is left to wait for.
Advances-Run :
    (r k : ℕ) {s t : System} {n : ℕ}
    → Run s n t
    → get_elem? s.gate.waiters k ≡ some r
    → Advances r k n t
Advances-Run r k stop h = inr (k, h, omega arith)
Advances-Run r k (onward run step same) h = elim (Advances-Run r k run h) [
  | inl had ↦ inl (served-Step r step had)
  | inr (k', h', e) ↦ elim (Advances-Step r k' step h') [
    | inl had ↦ inl had
    | inr (k'', h'', e') ↦ inr (k'', h'', omega (arith, same))
  ]
]

-- A request with k others before it in the queue has had its slot once k + 1 slots are released,
-- whatever requests arrive, queue, start or finish and whatever pauses begin in between.
pub served-Run_of_releases :
    (r k : ℕ) {s t : System} {n : ℕ}
    → Run s n t
    → get_elem? s.gate.waiters k ≡ some r
    → k < n
    → served (phase_of r t) ≡ true
served-Run_of_releases r k run h enough = elim (Advances-Run r k run h) [
  | inl had ↦ had
  | inr (k', h', e) ↦ absurd (omega arith)
]
