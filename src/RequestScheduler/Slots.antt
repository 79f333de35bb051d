-- ===== src/RequestScheduler/Slots.antt =====
-- What the operations of the gate do to the phases and the slots.
use mindoo_db.Base.{
  ℕ, ◌≡◌, ◌+◌, refl, ap, Bool, true, false, Option, some, none, List, [], ◌∷◌, ◌++◌, if◌then◌else◌,
  ltb, ◌==◌, ◌&&◌, length, lookup, set, ℕ_discrete, ite, lookup-set, arith,
}
use mindoo_db.RequestScheduler.{
  RequestScheduler, Phase, pausing, ready, queued, holding, running, done, System, phase_of, moved,
  Delay, finite, negative, not_finite, pause_for_rate_limit, hand_over, woken, acquired, released,
}

-- A request that holds a slot.
abbrev pub slot : Phase → ℕ
slot holding = 1
slot running = 1
slot pausing = 0
slot ready = 0
slot queued = 0
slot done = 0

abbrev pub slots : List (ℕ × Phase) → ℕ
slots [] = 0
slots (e ∷ m) = slot e.1 + slots m

set_head :
    (r : ℕ) (q : Phase) (e : ℕ × Phase) (m : List (ℕ × Phase))
    → r ≡ e.0
    → set ℕ_discrete r q (e ∷ m) ≡ (r, q) ∷ m
unfolding set
set_head r q e m h = ground arith

set_tail :
    (r : ℕ) (q : Phase) (e : ℕ × Phase) (m : List (ℕ × Phase))
    → ¬ (r ≡ e.0)
    → set ℕ_discrete r q (e ∷ m) ≡ e ∷ set ℕ_discrete r q m
unfolding set
set_tail r q e m h = ground arith

pub slots-set :
    (r : ℕ) (p q : Phase) (m : List (ℕ × Phase))
    → lookup ℕ_discrete r m ≡ some p
    → slots (set ℕ_discrete r q m) + slot p ≡ slots m + slot q
unfolding lookup set
slots-set r p q [] h = cc
slots-set r p q (e ∷ m) h = elim (ℕ_discrete r e.0) [
  | yes same ↦
      let is_p : e.1 ≡ p = ground arith in
      omega (arith, ap slots (set_head r q e m same), ap slot is_p)
  | no other ↦ omega (arith, ap slots (set_tail r q e m other), slots-set r p q m (ground arith))
]

pub slots-set_new :
    (r : ℕ) (q : Phase) (m : List (ℕ × Phase))
    → lookup ℕ_discrete r m ≡ none
    → slots (set ℕ_discrete r q m) ≡ slots m + slot q
unfolding lookup set
slots-set_new r q [] h = omega arith
slots-set_new r q (e ∷ m) h = elim (ℕ_discrete r e.0) [
  | yes same ↦ absurd (ground arith)
  | no other ↦ omega (arith, ap slots (set_tail r q e m other), slots-set_new r q m (ground arith))
]

-- A request's phase after another's has changed.
pub phase-moved :
    (r r' : ℕ) (q : Phase) (s : System)
    → phase_of r' (moved r q s) ≡ ite (ℕ_discrete r' r) (some q) (phase_of r' s)
phase-moved r r' q s = lookup-set ℕ_discrete r' r q s.requests

-- A pause leaves the slots and the queue alone.
pub pause_lem :
    (d : Option Delay) (now : ℕ) (g : RequestScheduler)
    → ((pause_for_rate_limit d now g).max_concurrent ≡ g.max_concurrent)
      × ((pause_for_rate_limit d now g).active ≡ g.active)
      × ((pause_for_rate_limit d now g).waiters ≡ g.waiters)
unfolding pause_for_rate_limit
pause_lem none now g = ground arith
pause_lem (some negative) now g = ground arith
pause_lem (some not_finite) now g = ground arith
pause_lem (some (finite n)) now g = ground arith

abbrev pub taken : ℕ → System → System
taken r s = moved r holding (record s { gate = record s.gate { active = s.gate.active + 1 } })

abbrev pub waits : ℕ → System → System
waits r s =
    moved r queued (record s { gate = record s.gate { waiters = s.gate.waiters ++ (r ∷ []) } })

abbrev pub is_free : RequestScheduler → Bool
is_free g = length g.waiters == 0 && ltb g.active g.max_concurrent

abbrev slot_taken : RequestScheduler → RequestScheduler × Bool
slot_taken g = (record g { active = g.active + 1 }, true)

abbrev in_queue : ℕ → RequestScheduler → RequestScheduler × Bool
in_queue r g = (record g { waiters = g.waiters ++ (r ∷ []) }, false)

abbrev after_acquiring : ℕ → System → RequestScheduler × Bool → System
after_acquiring r s result =
    moved r (if result.1 then holding else queued) (record s { gate = result.0 })

pub acquired_lem :
    (r : ℕ) (s : System) → acquired r s ≡ (if is_free s.gate then taken r s else waits r s)
unfolding acquired
acquired_lem r s =
    elim (is_free s.gate)
      as (λ b.
        after_acquiring r s (if b then slot_taken s.gate else in_queue r s.gate)
        ≡ (if b then taken r s else waits r s)) [ true ↦ refl | false ↦ refl ]

-- `release_slot` by what stands in the queue.
abbrev pub after_releasing : ℕ → System → List ℕ → System
after_releasing r s ws =
    woken (hand_over s.gate ws).1 (moved r done (record s { gate = (hand_over s.gate ws).0 }))

pub released_lem :
    (r : ℕ) (s : System) (ws : List ℕ) → s.gate.waiters ≡ ws → released r s ≡ after_releasing r s ws
unfolding released
released_lem r s ws e = ap (after_releasing r s) e
