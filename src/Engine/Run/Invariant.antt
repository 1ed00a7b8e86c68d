-- ===== src/Engine/Run/Invariant.antt =====
-- How the steps of a run and its sessions belong together (engine/run.go).
use deadlocker.Base.{
  ℕ, zero, suc, ◌+◌, ◌≤◌, ◌≡◌, ◌≢◌, ◌⊎◌, inl, inr, sym, Bool, true, false, some, Option-cases, List,
  [], ◌∷◌, Bytes, length, get_elem?, set, get_elem?-set_self, get_elem?-set_ne, bytes_eq,
  bytes_eq_iff, ◌==◌, arith, Bool-cases, map,
}
use deadlocker.Casedef.Types.{Case, Actor, Step}
use deadlocker.Engine.Types.{
  StepStatus, step_pending, step_running, step_blocked, StepResult, Session, Run,
}
use deadlocker.Engine.Outcome.{evaluate, judge}
use deadlocker.Engine.Sessions.{find_session, modify_session, find-modify, map_option}
use deadlocker.Engine.Run.{new_step, new_steps, new_session, new_run}

-- A statement of the step is being executed.
abbrev pub is_active : StepStatus → Bool
is_active step_running = true
is_active step_blocked = true
is_active _ = false

-- The actor's connection is busy with the statement of step number `n`.
abbrev pub Holds : List Session → Bytes → ℕ → Type 0
Holds actors k n =
    (a : Session) × (find_session actors k ≡ some a)
    × (a.busy ≡ true)
    × (a.step_index ≡ n)
    × (a.console_id ≡ 0)

-- A connection that is free runs no console statement.
abbrev pub IsIdle : List Session → Type 0
IsIdle actors =
    (k : Bytes) (a : Session) → find_session actors k ≡ some a → a.busy ≡ false → a.console_id ≡ 0

pub record Inv (r : Run) : Type 0 where
  pub cursor_le : r.cursor ≤ length r.steps
  pub pending :
      (i : ℕ) (st : StepResult)
      → get_elem? r.steps i ≡ some st
      → r.cursor ≤ i
      → st.status ≡ step_pending
  pub held :
      (i : ℕ) (st : StepResult)
      → get_elem? r.steps i ≡ some st
      → is_active st.status ≡ true
      → Holds r.actors st.actor (i + 1)
  pub idle : IsIdle r.actors

-- Two statements on one connection are the same statement.
pub one_statement :
    (r : Run) (i j : ℕ) (s t : StepResult)
    → Inv r
    → get_elem? r.steps i ≡ some s
    → get_elem? r.steps j ≡ some t
    → is_active s.status ≡ true
    → is_active t.status ≡ true
    → s.actor ≡ t.actor
    → i ≡ j
one_statement r i j s t v hi hj ai aj e =
    let (a, fa, ba, na, ca) = v.held i s hi ai in
    let (b, fb, bb, nb, cb) = v.held j t hj aj in ground arith

-- The verdict does not touch what the invariant reads.
pub evaluate-same :
    (st : StepResult) → ((evaluate st).status ≡ st.status) × ((evaluate st).actor ≡ st.actor)
unfolding evaluate judge
evaluate-same st = ground arith

-- A write at one index, read back at any.
pub set_cases {ℓ} :
    {A : Type ℓ} (xs : List A) (k : ℕ) (v : A) (i : ℕ) (st w : A)
    → get_elem? xs k ≡ some w
    → get_elem? (set xs k v) i ≡ some st
    → ((i ≡ k) × (st ≡ v)) ⊎ ((i ≢ k) × (get_elem? xs i ≡ some st))
set_cases xs k v i st w h g = elim (Bool-cases (i == k)) [
  | inl same ↦ let e : i ≡ k = ground arith in inl (e, ground (arith, get_elem?-set_self xs k v h))
  | inr differ ↦
      let ne : i ≢ k = ground arith in
      inr (ne, ground (arith, get_elem?-set_ne xs k i v (λ e. ne (sym e))))
]

-- A change of a session that is free, or that no other statement holds, leaves the holders alone.
pub Holds-modify :
    (f : Session → Session) (keeps : (s : Session) → (f s).id ≡ s.id) (actors : List Session)
    (k j : Bytes) (n : ℕ)
    → k ≢ j
    → Holds actors j n
    → Holds (modify_session f actors k) j n
Holds-modify f keeps actors k j n ne (a, found, busy, number, quiet) =
    (a, ground (arith, find-modify f keeps actors k j, bytes_eq_iff k j), busy, number, quiet)

-- A change of one session keeps the others idle, if it leaves that one busy or quiet.
pub IsIdle-modify :
    (f : Session → Session) (keeps : (s : Session) → (f s).id ≡ s.id) (actors : List Session)
    (k : Bytes)
    → ((a : Session) → find_session actors k ≡ some a → (f a).busy ≡ false → (f a).console_id ≡ 0)
    → IsIdle actors
    → IsIdle (modify_session f actors k)
unfolding map_option
IsIdle-modify f keeps actors k quiet idle j a found free = elim (Bool-cases (bytes_eq k j)) [
  | inl same ↦ elim (Option-cases (find_session actors j)) [
    | inl e ↦ absurd (ground (arith, find-modify f keeps actors k j))
    | inr (b, e) ↦
        let kj : k ≡ j = (bytes_eq_iff k j).0 same in
        let fb : f b ≡ a = ground (arith, find-modify f keeps actors k j) in
        rw (← fb) (quiet b (rw kj e) (rw fb free))
  ]
  | inr other ↦ idle j a (ground (arith, find-modify f keeps actors k j)) free
]

-- An operation that leaves the steps, the cursor and the actors alone.
pub same-Inv :
    (r r' : Run) → r'.cursor ≡ r.cursor → r'.steps ≡ r.steps → r'.actors ≡ r.actors → Inv r → Inv r'
same-Inv r r' c s a v = record {
  cursor_le = rw (c, s) v.cursor_le;
  pending = λ i st h le. v.pending i st (rw s at h) (rw c at le);
  held = λ i st h on. rw a (v.held i st (rw s at h) on);
  idle = rw a v.idle;
}

new_steps_pending :
    (actors : List Actor) (k i : ℕ) (sts : List Step) (st : StepResult)
    → get_elem? (new_steps actors k sts) i ≡ some st
    → st.status ≡ step_pending
unfolding new_steps new_step
new_steps_pending actors k i [] st h = cc
new_steps_pending actors k zero (x ∷ xs) st h = ground arith
new_steps_pending actors k (suc i) (x ∷ xs) st h = new_steps_pending actors (k + 1) i xs st h

new-IsIdle : (actors : List Actor) → IsIdle (map new_session actors)
unfolding find_session new_session
new-IsIdle [] k a h free = cc
new-IsIdle (x ∷ xs) k a h free = elim (Bool-cases (bytes_eq x.id k)) [
  | inl same ↦ ground arith
  | inr other ↦ new-IsIdle xs k a (ground arith) free
]

pub new_run-Inv : (c : Case) → Inv (new_run c)
unfolding new_run
new_run-Inv c = record {
  cursor_le = omega arith;
  pending = λ i st h le. new_steps_pending c.actors 0 i c.steps st h;
  held = λ i st h on. absurd (ground (arith, new_steps_pending c.actors 0 i c.steps st h));
  idle = new-IsIdle c.actors;
}
