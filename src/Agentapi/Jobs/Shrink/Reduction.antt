-- ===== src/Agentapi/Jobs/Shrink/Reduction.antt =====
-- A reduced scenario against its original (agentapi/jobs.go).
use deadlocker.Base.{
  ℕ, zero, suc, ◌+◌, ◌≤◌, ◌<◌, ◌≡◌, refl, sym, ap, ◌∙◌, ltb, ◌==◌, Bool, true, false, ◌&&◌, Option,
  none, some, List, [], ◌∷◌, Bytes, length, length-append, get_elem?, map, All, Bool-cases, inl,
  inr, arith,
}
use deadlocker.Casedef.Types.{Case, Step}
use deadlocker.Casedef.Validate.{validate, validate_steps, validate_actors, fill_step}
use deadlocker.Agentapi.Jobs.{Jobs}
use deadlocker.Agentapi.Jobs.Play.{Runs}
use deadlocker.Agentapi.Jobs.Shrink.{
  remove_at, with_steps, Shrinking, goes_on, take_if, try_candidate, try_without, sweep_down,
  reduce_rounds, reduce, upto, begin_shrink,
}

-- A step but for its label, which validating may fill in.
abbrev pub unlabelled : Step → Step
unlabelled s = record s { label = [] }

abbrev pub statements : List Step → List (Option Step)
statements = map (λ s. some (unlabelled s))

-- The steps of the original at these places.
abbrev pub places : List Step → List ℕ → List (Option Step)
places steps = map (get_elem? (map unlabelled steps))

abbrev pub IsAscending : List ℕ → Type 0
IsAscending [] = Unit
IsAscending (k ∷ ks) = All (λ (j : ℕ). k < j) ks × IsAscending ks

-- What is left is the original's steps at the places kept, in their order, and is not nothing; every
-- step is kept or removed; the attempts are within their bound.
pub record IsReduction {W : Type 0} (base : Case) (st : Shrinking W) : Type 0 where
  pub same_steps : statements st.current.steps ≡ places base.steps st.kept
  pub ascending : IsAscending st.kept
  pub some_step : 1 ≤ length st.current.steps
  pub all_counted : length st.removed + length st.current.steps ≡ length base.steps
  pub bounded : st.attempts ≤ 80

pub length-remove_at {ℓ} :
    {A : Type ℓ} (i : ℕ) (xs : List A) → i < length xs → length (remove_at i xs) + 1 ≡ length xs
unfolding remove_at
length-remove_at i [] h = absurd (omega arith)
length-remove_at zero (x ∷ xs) h = omega arith
length-remove_at (suc i) (x ∷ xs) h = omega (arith, length-remove_at i xs (omega arith))

map-remove_at :
    {A B : Type 0} (f : A → B) (i : ℕ) (xs : List A)
    → map f (remove_at i xs) ≡ remove_at i (map f xs)
unfolding remove_at
map-remove_at f i [] = refl
map-remove_at f zero (x ∷ xs) = refl
map-remove_at f (suc i) (x ∷ xs) = ap (◌∷◌ (f x)) (map-remove_at f i xs)

All-remove_at : (P : ℕ → Type 0) (i : ℕ) (xs : List ℕ) → All P xs → All P (remove_at i xs)
unfolding remove_at
All-remove_at P i [] h = tt
All-remove_at P zero (x ∷ xs) (p, ps) = ps
All-remove_at P (suc i) (x ∷ xs) (p, ps) = (p, All-remove_at P i xs ps)

remove_at-IsAscending : (i : ℕ) (ks : List ℕ) → IsAscending ks → IsAscending (remove_at i ks)
unfolding remove_at
remove_at-IsAscending i [] h = tt
remove_at-IsAscending zero (k ∷ ks) (above, h) = h
remove_at-IsAscending (suc i) (k ∷ ks) (above, h) =
    (All-remove_at _ i ks above, remove_at-IsAscending i ks h)

statements-validate_steps :
    (seen : List Bytes) (i : ℕ) (steps : List Step)
    → statements (validate_steps seen i steps).0 ≡ statements steps
unfolding validate_steps fill_step
statements-validate_steps seen i [] = refl
statements-validate_steps seen i (s ∷ rest) =
    ap (◌∷◌ (some (unlabelled s))) (statements-validate_steps seen (i + 1) rest)

length-validate_steps :
    (seen : List Bytes) (i : ℕ) (steps : List Step)
    → length (validate_steps seen i steps).0 ≡ length steps
unfolding validate_steps
length-validate_steps seen i [] = refl
length-validate_steps seen i (s ∷ rest) = ap suc (length-validate_steps seen (i + 1) rest)

-- Validating leaves the statements alone.
statements-validate :
    (c : Case) (steps : List Step)
    → statements (validate (with_steps c steps)).0.steps ≡ statements steps
unfolding validate with_steps
statements-validate c steps = statements-validate_steps (validate_actors 0 [] c.actors).1 0 steps

pub length-validate :
    (c : Case) (steps : List Step) → length (validate (with_steps c steps)).0.steps ≡ length steps
unfolding validate with_steps
length-validate c steps = length-validate_steps (validate_actors 0 [] c.actors).1 0 steps

places-upto :
    (x : Step) (xs : List Step) (first n : ℕ)
    → places (x ∷ xs) (upto (suc first) n) ≡ places xs (upto first n)
unfolding upto
places-upto x xs first zero = refl
places-upto x xs first (suc n) =
    ap (◌∷◌ (get_elem? (map unlabelled xs) first)) (places-upto x xs (suc first) n)

all_places : (steps : List Step) → statements steps ≡ places steps (upto 0 (length steps))
unfolding upto
all_places [] = refl
all_places (s ∷ rest) =
    ap (◌∷◌ (some (unlabelled s))) (all_places rest ∙ sym (places-upto s rest 0 (length rest)))

upto-above : (k first n : ℕ) → k < first → All (λ (j : ℕ). k < j) (upto first n)
unfolding upto
upto-above k first zero h = tt
upto-above k first (suc n) h = (h, upto-above k (suc first) n (omega arith))

upto-IsAscending : (first n : ℕ) → IsAscending (upto first n)
unfolding upto
upto-IsAscending first zero = tt
upto-IsAscending first (suc n) =
    (upto-above first (suc first) n (omega arith), upto-IsAscending (suc first) n)

module _ {W R : Type 0} (runs : Runs W R) (base : Case) (id target : Bytes) where
  take_if-IsReduction :
      (i : ℕ) (st : Shrinking W) (reply : Option Bool)
      → i < length st.current.steps
      → 1 ≤ length (remove_at i st.current.steps)
      → IsReduction base st
      → IsReduction base
          (take_if i (validate (with_steps st.current (remove_at i st.current.steps))).0 st reply)
  unfolding take_if
  take_if-IsReduction i st none lt some_left r = r
  take_if-IsReduction i st (some false) lt some_left r = r
  take_if-IsReduction i st (some true) lt some_left r =
      let steps = remove_at i st.current.steps in
      let n = length-validate st.current steps in
      record {
        same_steps =
            statements-validate st.current steps
            ∙ map-remove_at (λ s. some (unlabelled s)) i st.current.steps
            ∙ ap (remove_at i) r.same_steps
            ∙ sym (map-remove_at (get_elem? (map unlabelled base.steps)) i st.kept);
        ascending = remove_at-IsAscending i st.kept r.ascending;
        some_step = omega (arith, n);
        all_counted = omega (
          arith,
          n,
          r.all_counted,
          length-remove_at i st.current.steps lt,
          length-append st.removed (_ ∷ []),
        );
        bounded = r.bounded;
      }

  length-take_if :
      (i : ℕ) (st : Shrinking W) (reply : Option Bool)
      → i < length st.current.steps
      → let c = (validate (with_steps st.current (remove_at i st.current.steps))).0 in
        length st.current.steps ≤ length (take_if i c st reply).current.steps + 1
  unfolding take_if
  length-take_if i st none lt = omega arith
  length-take_if i st (some false) lt = omega arith
  length-take_if i st (some true) lt = omega (
    arith,
    length-validate st.current (remove_at i st.current.steps),
    length-remove_at i st.current.steps lt,
  )

  try_without-IsReduction :
      (i : ℕ) (st : Shrinking W)
      → i < length st.current.steps
      → goes_on runs st ≡ true
      → IsReduction base st
      → IsReduction base (try_without runs id target i st)
  unfolding try_without try_candidate goes_on
  try_without-IsReduction i st lt on r =
      let steps = remove_at i st.current.steps in
      let (candidate, problems) = validate (with_steps st.current steps) in
      elim (Bool-cases (ltb 0 (length steps) && (length problems == 0))) [
        | inl runs_it ↦
            rw (runs_it, try_without)
              (take_if-IsReduction i _ _ lt (ground arith) (record {
                same_steps = r.same_steps;
                ascending = r.ascending;
                some_step = r.some_step;
                all_counted = r.all_counted;
                bounded = ground (arith, r.bounded);
              }))
        | inr passed ↦ rw (passed, try_without) r
      ]

  pub length-try_without :
      (i : ℕ) (st : Shrinking W)
      → i < length st.current.steps
      → length st.current.steps ≤ length (try_without runs id target i st).current.steps + 1
  unfolding try_without try_candidate
  length-try_without i st lt =
      let steps = remove_at i st.current.steps in
      let (candidate, problems) = validate (with_steps st.current steps) in
      elim (Bool-cases (ltb 0 (length steps) && (length problems == 0))) [
        | inl runs_it ↦ rw (runs_it, try_without) (length-take_if i _ _ lt)
        | inr passed ↦ rw (passed, try_without) (omega arith)
      ]

  sweep_down-IsReduction :
      (i : ℕ) (st : Shrinking W)
      → i ≤ length st.current.steps
      → IsReduction base st
      → IsReduction base (sweep_down runs id target i st)
  unfolding sweep_down
  sweep_down-IsReduction zero st le r = r
  sweep_down-IsReduction (suc i) st le r = elim (Bool-cases (goes_on runs st)) [
    | inl on ↦
        rw (on, sweep_down)
          (sweep_down-IsReduction i (try_without runs id target i st)
            (omega (arith, length-try_without i st le)) (try_without-IsReduction i st le on r))
    | inr off ↦ rw (off, sweep_down) r
  ]

  rounds-IsReduction :
      (fuel : ℕ) (st : Shrinking W)
      → IsReduction base st
      → IsReduction base (reduce_rounds runs id target fuel st)
  unfolding reduce_rounds
  rounds-IsReduction zero st r = r
  rounds-IsReduction (suc fuel) st r = elim (Bool-cases (st.changed && goes_on runs st)) [
    | inl on ↦
        rw (on, reduce_rounds)
          (rounds-IsReduction fuel _ (
            sweep_down-IsReduction (length st.current.steps) (record st { changed = false })
              (omega arith)
              (record {
                same_steps = r.same_steps;
                ascending = r.ascending;
                some_step = r.some_step;
                all_counted = r.all_counted;
                bounded = r.bounded;
              })))
    | inr off ↦ rw (off, reduce_rounds) r
  ]

  -- Reducing a scenario that has steps leaves at least one of them: the steps that are left are the
  -- original's steps at the places that the code says it kept, in their original order and, but for their
  -- labels, unchanged; every step of the original is either left or counted as removed; and at most 80
  -- attempts were made.
  pub reduce-IsReduction :
      (jobs : Jobs) (w : W)
      → 1 ≤ length base.steps
      → IsReduction base (reduce runs id target (begin_shrink base jobs w))
  unfolding reduce begin_shrink
  reduce-IsReduction jobs w some_step = rounds-IsReduction (length base.steps + 1) _ (record {
    same_steps = all_places base.steps;
    ascending = upto-IsAscending 0 (length base.steps);
    some_step = some_step;
    all_counted = omega arith;
    bounded = omega arith;
  })
