-- ===== src/Agentapi/Jobs/Shrink/Minimal.antt =====
-- What a reduced scenario can still lose (agentapi/jobs.go).
use deadlocker.Base.{
  ℕ, zero, suc, ◌+◌, ◌≤◌, ◌<◌, ◌≡◌, ◌≢◌, ◌⊎◌, inl, inr, refl, sym, ap, ◌∙◌, ltb, ◌==◌, Bool, true,
  false, ◌&&◌, Option, none, some, Bytes, length, Bool-cases, arith,
}
use deadlocker.Casedef.Types.{Case}
use deadlocker.Casedef.Validate.{validate}
use deadlocker.Agentapi.Jobs.{Jobs}
use deadlocker.Agentapi.Jobs.Play.{Runs}
use deadlocker.Agentapi.Jobs.Shrink.{
  remove_at, with_steps, Shrinking, reproduces, goes_on, take_if, try_candidate, try_without,
  sweep_down, reduce_rounds, reduce, begin_shrink,
}
use deadlocker.Agentapi.Jobs.Shrink.Reduction.{length-remove_at, length-validate}

-- The case without its step at an index, as validating leaves it.
abbrev pub without : Case → ℕ → Case
without c i = (validate (with_steps c (remove_at i c.steps))).0

-- Whether the loop runs that candidate: it has steps and is valid.
abbrev pub is_candidate : Case → ℕ → Bool
is_candidate c i =
    ltb 0 (length (remove_at i c.steps))
    && (length (validate (with_steps c (remove_at i c.steps))).1 == 0)

module _ {W R : Type 0} (runs : Runs W R) (id target : Bytes) (r : Case → Option Bool)
    (stable : (w : W) (c : Case) → (reproduces runs w c target).1 ≡ r c) where
  -- The step at this index is needed, as far as it can be tried.
  abbrev pub IsNeeded : Case → ℕ → Type 0
  IsNeeded c i = is_candidate c i ≡ true → r (without c i) ≢ some true

  record IsPassed (st st' : Shrinking W) (i : ℕ) : Type 0 where
    pub same : st'.changed ≡ st.changed
    pub current : st'.current ≡ st.current
    pub needed : IsNeeded st.current i

  record IsTaken (st st' : Shrinking W) : Type 0 where
    pub changed : st'.changed ≡ true
    pub shorter : length st'.current.steps + 1 ≡ length st.current.steps
    pub shown : r st'.current ≡ some true

  take_if-cases :
      (i : ℕ) (st : Shrinking W) (reply : Option Bool)
      → i < length st.current.steps
      → reply ≡ r (without st.current i)
      → let st' = take_if i (without st.current i) st reply in IsPassed st st' i ⊎ IsTaken st st'
  unfolding take_if
  take_if-cases i st none lt e = inl (record { same = refl; current = refl; needed = λ _ s. cc })
  take_if-cases i st (some false) lt e =
      inl (record { same = refl; current = refl; needed = λ _ s. ground arith })
  take_if-cases i st (some true) lt e = inr (record {
    changed = refl;
    shorter = omega (
      arith,
      length-validate st.current (remove_at i st.current.steps),
      length-remove_at i st.current.steps lt,
    );
    shown = sym e;
  })

  try_without-cases :
      (i : ℕ) (st : Shrinking W)
      → i < length st.current.steps
      → let st' = try_without runs id target i st in IsPassed st st' i ⊎ IsTaken st st'
  unfolding try_without try_candidate
  try_without-cases i st lt = elim (Bool-cases (is_candidate st.current i)) [
    | inl runs_it ↦
        rw (runs_it, try_without)
          (elim (take_if-cases i _ _ lt (stable st.world (without st.current i))) [
            | inl p ↦ inl (record { same = p.same; current = p.current; needed = p.needed })
            | inr t ↦ inr (record { changed = t.changed; shorter = t.shorter; shown = t.shown })
          ])
    | inr passed ↦
        rw (passed, try_without)
          (inl (record { same = refl; current = refl; needed = λ h s. ground (arith, h, passed) }))
  ]

  record IsUnmoved (st st' : Shrinking W) (i : ℕ) : Type 0 where
    pub same : st'.changed ≡ st.changed
    pub current : st'.current ≡ st.current
    pub needed : (j : ℕ) → goes_on runs st' ≡ true → j < i → IsNeeded st.current j

  record IsMoved (st st' : Shrinking W) : Type 0 where
    pub changed : st'.changed ≡ true
    pub shorter : length st'.current.steps + 1 ≤ length st.current.steps
    pub shown : r st'.current ≡ some true

  after_passed :
      (i : ℕ) (st st1 st' : Shrinking W)
      → IsPassed st st1 i
      → IsUnmoved st1 st' i ⊎ IsMoved st1 st'
      → IsUnmoved st st' (suc i) ⊎ IsMoved st st'
  after_passed i st st1 st' p (inl u) = inl (record {
    same = u.same ∙ p.same;
    current = u.current ∙ p.current;
    needed = λ j on lt. elim (Bool-cases (j == i)) [
      | inl e ↦ let e' : j ≡ i = ground arith in rw e' p.needed
      | inr ne ↦ rw (← p.current) (u.needed j on (ground arith))
    ];
  })
  after_passed i st st1 st' p (inr m) =
      inr (record { changed = m.changed; shorter = rw (← p.current) m.shorter; shown = m.shown })

  after_taken :
      (i : ℕ) (st st1 st' : Shrinking W)
      → IsTaken st st1
      → IsUnmoved st1 st' i ⊎ IsMoved st1 st'
      → IsMoved st st'
  after_taken i st st1 st' t (inl u) = record {
    changed = u.same ∙ t.changed;
    shorter = rw u.current (omega (arith, t.shorter));
    shown = ap r u.current ∙ t.shown;
  }
  after_taken i st st1 st' t (inr m) = record {
    changed = m.changed;
    shorter = omega (arith, t.shorter, m.shorter);
    shown = m.shown;
  }

  passed_within :
      (i : ℕ) (st st1 : Shrinking W)
      → IsPassed st st1 i ⊎ IsTaken st st1
      → i < length st.current.steps
      → i ≤ length st1.current.steps
  passed_within i st st1 (inl p) lt = rw p.current (omega arith)
  passed_within i st st1 (inr t) lt = omega (arith, t.shorter)

  sweep_down-cases :
      (i : ℕ) (st : Shrinking W)
      → i ≤ length st.current.steps
      → let st' = sweep_down runs id target i st in IsUnmoved st st' i ⊎ IsMoved st st'
  unfolding sweep_down
  sweep_down-cases zero st le =
      inl (record { same = refl; current = refl; needed = λ j on lt. absurd (omega arith) })
  sweep_down-cases (suc i) st le = elim (Bool-cases (goes_on runs st)) [
    | inl on ↦
        rw (on, sweep_down)
          (let st1 = try_without runs id target i st in
            let tried = try_without-cases i st le in
            let rest = sweep_down-cases i st1 (passed_within i st st1 tried le) in
            elim tried [
              | inl p ↦ after_passed i st st1 _ p rest
              | inr t ↦ inr (after_taken i st st1 _ t rest)
            ])
    | inr off ↦
        rw (off, sweep_down)
          (inl (record { same = refl; current = refl; needed = λ j on lt. absurd (ground arith) }))
  ]

  -- No single step can go.
  abbrev pub IsMinimal : Case → Type 0
  IsMinimal c = (i : ℕ) → i < length c.steps → IsNeeded c i

  abbrev pub IsVerified : Case → Case → Type 0
  IsVerified base c = (c ≡ base) ⊎ (r c ≡ some true)

  abbrev round_of : Shrinking W → Shrinking W
  round_of st = sweep_down runs id target (length st.current.steps) (record st { changed = false })

  round-cases :
      (st : Shrinking W)
      → IsUnmoved (record st { changed = false }) (round_of st) (length st.current.steps)
        ⊎ IsMoved (record st { changed = false }) (round_of st)
  round-cases st =
      sweep_down-cases (length st.current.steps) (record st { changed = false }) (omega arith)

  rounds-IsMinimal :
      (fuel : ℕ) (st : Shrinking W)
      → ((st.changed ≡ true) × (length st.current.steps < fuel))
        ⊎ ((st.changed ≡ false) × (goes_on runs st ≡ true → IsMinimal st.current))
      → let st' = reduce_rounds runs id target fuel st in
        goes_on runs st' ≡ true → IsMinimal st'.current
  unfolding reduce_rounds
  rounds-IsMinimal zero st (inl (changed, lt)) = absurd (omega arith)
  rounds-IsMinimal zero st (inr (_, minimal)) = minimal
  rounds-IsMinimal (suc fuel) st start = elim (Bool-cases (st.changed && goes_on runs st)) [
    | inl again ↦
        rw (again, reduce_rounds)
          (elim (round-cases st) [
            | inl u ↦
                rounds-IsMinimal fuel (round_of st)
                  (inr (u.same, λ on. rw u.current (λ j lt. u.needed j on lt)))
            | inr m ↦ rounds-IsMinimal fuel (round_of st) (
                inl (
                  m.changed,
                  elim start [
                    | inl (_, lt) ↦ omega (arith, m.shorter)
                    | inr (unchanged, _) ↦ absurd (ground arith)
                  ],
                ))
          ])
    | inr over ↦
        rw (over, reduce_rounds)
          (λ on. elim start [
            | inl (changed, _) ↦ absurd (ground arith)
            | inr (_, minimal) ↦ minimal on
          ])
  ]

  rounds-IsVerified :
      (base : Case) (fuel : ℕ) (st : Shrinking W)
      → IsVerified base st.current
      → IsVerified base (reduce_rounds runs id target fuel st).current
  unfolding reduce_rounds
  rounds-IsVerified base zero st v = v
  rounds-IsVerified base (suc fuel) st v = elim (Bool-cases (st.changed && goes_on runs st)) [
    | inl again ↦
        rw (again, reduce_rounds)
          (rounds-IsVerified base fuel (round_of st)
            (elim (round-cases st) [ inl u ↦ rw u.current v | inr m ↦ inr m.shown ]))
    | inr over ↦ rw (over, reduce_rounds) v
  ]

  abbrev reduced : Case → Jobs → W → Shrinking W
  reduced base jobs w = reduce runs id target (begin_shrink base jobs w)

  -- Where a candidate's result depends on the candidate alone: a reduction that was neither cancelled nor
  -- stopped by its bound on attempts is minimal, in that no candidate that leaves out one more step, is
  -- valid and has a step still shows the target.
  pub reduce-IsMinimal :
      (base : Case) (jobs : Jobs) (w : W)
      → goes_on runs (reduced base jobs w) ≡ true
      → (i : ℕ) → i < length (reduced base jobs w).current.steps
      → is_candidate (reduced base jobs w).current i ≡ true
      → r (without (reduced base jobs w).current i) ≢ some true
  unfolding reduce begin_shrink
  reduce-IsMinimal base jobs w on i lt candidate =
      rounds-IsMinimal (length base.steps + 1) _ (inl (refl, omega arith)) on i lt candidate

  -- Where a candidate's result depends on the candidate alone: what a reduction ends with, cancelled or
  -- not, is the original itself or a case that showed the target when it was run.
  pub reduce-IsVerified :
      (base : Case) (jobs : Jobs) (w : W) → IsVerified base (reduced base jobs w).current
  unfolding reduce begin_shrink
  reduce-IsVerified base jobs w = rounds-IsVerified base (length base.steps + 1) _ (inl refl)
