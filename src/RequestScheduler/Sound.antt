-- ===== src/RequestScheduler/Sound.antt =====
-- The invariant of the gate: which slots are taken, and when a request has to wait.
use mindoo_db.Base.{
  ℕ, ◌≡◌, ◌+◌, ◌-◌, ◌≤◌, ◌<◌, ◌⊎◌, inl, inr, refl, ap, ◌∙◌, sym, true, false, Option, some, none,
  List, [], ◌∷◌, ◌++◌, length, set, ℕ_discrete, arith, has, has-append, append-Distinct, Distinct,
  Bool-cases, List-cases, subst,
}
use mindoo_db.RequestScheduler.{
  Phase, pausing, ready, queued, holding, running, done, System, phase_of, moved, Step, arrive,
  leave_pause, acquire, start, finish, pause, Delay, pause_for_rate_limit, acquired, released,
}
use mindoo_db.RequestScheduler.Slots.{
  slot, slots, slots-set, slots-set_new, phase-moved, pause_lem, is_free, acquired_lem,
  released_lem,
}

-- Every slot that is taken belongs to a request, there are no more than allowed, and requests wait
-- only while all are taken; the waiters are the queued requests, each once.
pub record IsSound (s : System) : Type 0 where
  pub counted : slots s.requests ≡ s.gate.active
  pub bounded : s.gate.active ≤ s.gate.max_concurrent
  pub positive : 0 < s.gate.max_concurrent
  pub full : (s.gate.waiters ≡ []) ⊎ (s.gate.active ≡ s.gate.max_concurrent)
  pub distinct : Distinct ℕ_discrete s.gate.waiters
  pub waiting : (r : ℕ) → has ℕ_discrete r s.gate.waiters ≡ true → phase_of r s ≡ some queued
  pub listed : (r : ℕ) → phase_of r s ≡ some queued → has ℕ_discrete r s.gate.waiters ≡ true

moved-IsSound :
    (r : ℕ) (p q : Phase) (s : System)
    → IsSound s
    → phase_of r s ≡ some p
    → slot p ≡ slot q
    → ¬ (p ≡ queued)
    → ¬ (q ≡ queued)
    → IsSound (moved r q s)
moved-IsSound r p q s i h same not_p not_q = record {
  counted = omega (arith, slots-set r p q s.requests h, i.counted);
  bounded = i.bounded;
  positive = i.positive;
  full = i.full;
  distinct = i.distinct;
  waiting = λ r' w. ground (arith, phase-moved r r' q s, i.waiting r' w, h);
  listed = λ r' w. ground (arith, phase-moved r r' q s, i.listed r', h);
}

arrive-IsSound :
    (r : ℕ) (s : System) → IsSound s → phase_of r s ≡ none → IsSound (moved r pausing s)
arrive-IsSound r s i h = record {
  counted = omega (arith, slots-set_new r pausing s.requests h, i.counted);
  bounded = i.bounded;
  positive = i.positive;
  full = i.full;
  distinct = i.distinct;
  waiting = λ r' w. ground (arith, phase-moved r r' pausing s, i.waiting r' w);
  listed = λ r' w. ground (arith, phase-moved r r' pausing s, i.listed r');
}

pause-IsSound :
    (d : Option Delay) (now : ℕ) (s : System)
    → IsSound s
    → IsSound (record s { gate = pause_for_rate_limit d now s.gate })
pause-IsSound d now s i =
    let (same_max, same_active, same_waiters) = pause_lem d now s.gate in
    record {
      counted = i.counted ∙ sym same_active;
      bounded = ground (arith, i.bounded);
      positive = ground (arith, i.positive);
      full = rw (same_max, same_active, same_waiters) i.full;
      distinct = rw same_waiters i.distinct;
      waiting = rw same_waiters i.waiting;
      listed = rw same_waiters i.listed;
    }

-- With nobody waiting and a slot free, the slot is taken.
taken-IsSound :
    (r : ℕ) (s : System)
    → IsSound s
    → phase_of r s ≡ some ready
    → s.gate.waiters ≡ []
    → s.gate.active < s.gate.max_concurrent
    → IsSound (moved r holding (record s { gate = record s.gate { active = s.gate.active + 1 } }))
taken-IsSound r s i h nobody free = record {
  counted = omega (arith, slots-set r ready holding s.requests h, i.counted);
  bounded = omega arith;
  positive = i.positive;
  full = inl nobody;
  distinct = i.distinct;
  waiting = λ r' w. ground (arith, phase-moved r r' holding s, i.waiting r' w);
  listed = λ r' w. ground (arith, phase-moved r r' holding s, i.listed r');
}

-- Otherwise the request waits behind the others.
waits-IsSound :
    (r : ℕ) (s : System)
    → IsSound s
    → phase_of r s ≡ some ready
    → s.gate.active ≡ s.gate.max_concurrent
    → IsSound (
        moved r queued (record s { gate = record s.gate { waiters = s.gate.waiters ++ (r ∷ []) } }))
waits-IsSound r s i h all_taken =
    let apart : has ℕ_discrete r s.gate.waiters ≡ false =
      elim (Bool-cases (has ℕ_discrete r s.gate.waiters)) [
        | inl w ↦ absurd (ground (arith, i.waiting r w, h))
        | inr apart ↦ apart
      ] in
    record {
      counted = omega (arith, slots-set r ready queued s.requests h, i.counted);
      bounded = i.bounded;
      positive = i.positive;
      full = inr all_taken;
      distinct = append-Distinct ℕ_discrete s.gate.waiters r i.distinct apart;
      waiting = λ r' w. ground (
        arith,
        phase-moved r r' queued s,
        has-append ℕ_discrete r' s.gate.waiters (r ∷ []),
        i.waiting r',
      );
      listed = λ r' w. ground (
        arith,
        phase-moved r r' queued s,
        has-append ℕ_discrete r' s.gate.waiters (r ∷ []),
        i.listed r',
      );
    }

length_zero : (ws : List ℕ) → length ws ≡ 0 → ws ≡ []
length_zero [] h = refl
length_zero (w ∷ ws) h = absurd (omega arith)

acquired-IsSound :
    (r : ℕ) (s : System) → IsSound s → phase_of r s ≡ some ready → IsSound (acquired r s)
acquired-IsSound r s i h = elim (Bool-cases (is_free s.gate)) [
  | inl free ↦
      rw (acquired_lem r s, free)
        (taken-IsSound r s i h (length_zero s.gate.waiters (ground arith)) (ground arith))
  | inr full ↦
      let all_taken : s.gate.active ≡ s.gate.max_concurrent = elim i.full [
        | inl nobody ↦ ground (arith, ap length nobody, i.bounded)
        | inr e ↦ e
      ] in
      rw (acquired_lem r s, full) (waits-IsSound r s i h all_taken)
]

-- With nobody waiting the slot is free again.
freed-IsSound :
    (r : ℕ) (s : System)
    → IsSound s
    → phase_of r s ≡ some running
    → s.gate.waiters ≡ []
    → IsSound (moved r done (record s { gate = record s.gate { active = s.gate.active - 1 } }))
freed-IsSound r s i h nobody = record {
  counted = omega (arith, slots-set r running done s.requests h, i.counted);
  bounded = omega (arith, i.bounded);
  positive = i.positive;
  full = inl nobody;
  distinct = i.distinct;
  waiting = λ r' w. ground (arith, phase-moved r r' done s, i.waiting r' w);
  listed = λ r' w. ground (arith, phase-moved r r' done s, i.listed r');
}

-- Else it is the first waiter's.
handed-IsSound :
    (r next : ℕ) (rest : List ℕ) (s : System)
    → IsSound s
    → phase_of r s ≡ some running
    → s.gate.waiters ≡ next ∷ rest
    → IsSound
        (moved next holding (moved r done (record s { gate = record s.gate { waiters = rest } })))
handed-IsSound r next rest s i h queue =
    let apart : (has ℕ_discrete next rest ≡ false) × Distinct ℕ_discrete rest =
      subst (Distinct ℕ_discrete) queue i.distinct in
    let was_queued : phase_of next s ≡ some queued = i.waiting next (ground (arith, queue)) in
    let other : phase_of next (moved r done s) ≡ some queued =
      ground (arith, phase-moved r next done s) in
    record {
      counted = omega (
        arith,
        slots-set r running done s.requests h,
        slots-set next queued holding (set ℕ_discrete r done s.requests) other,
        i.counted,
      );
      bounded = i.bounded;
      positive = i.positive;
      full = elim i.full [ inl nobody ↦ absurd (ground arith) | inr all_taken ↦ inr all_taken ];
      distinct = apart.1;
      waiting = λ r' w. ground (
        arith,
        phase-moved next r' holding (moved r done s),
        phase-moved r r' done s,
        i.waiting r' (ground (arith, queue)),
        apart.0,
      );
      listed = λ r' w. ground (
        arith,
        phase-moved next r' holding (moved r done s),
        phase-moved r r' done s,
        i.listed r',
        queue,
      );
    }

released-IsSound :
    (r : ℕ) (s : System) → IsSound s → phase_of r s ≡ some running → IsSound (released r s)
released-IsSound r s i h = elim (List-cases s.gate.waiters) [
  | inl nobody ↦ subst IsSound (sym (released_lem r s [] nobody)) (freed-IsSound r s i h nobody)
  | inr (next, rest, queue) ↦
      subst IsSound (sym (released_lem r s (next ∷ rest) queue))
        (handed-IsSound r next rest s i h queue)
]

pub Step-IsSound : {s t : System} {n : ℕ} → Step s n t → IsSound s → IsSound t
Step-IsSound {s} (arrive r h) i = arrive-IsSound r s i h
Step-IsSound {s} (leave_pause r now h u) i =
    moved-IsSound r pausing ready s i h refl (λ e. cc) (λ e. cc)
Step-IsSound {s} (acquire r h) i = acquired-IsSound r s i h
Step-IsSound {s} (start r now h u) i =
    moved-IsSound r holding running s i h refl (λ e. cc) (λ e. cc)
Step-IsSound {s} (finish r h) i = released-IsSound r s i h
Step-IsSound {s} (pause d now) i = pause-IsSound d now s i
