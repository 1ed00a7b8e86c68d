-- ===== src/Engine/Run/Preserved.antt =====
-- Submitting, settling and completing a step, against the invariant (engine/run.go).
use deadlocker.Base.{
  ℕ, ◌+◌, ◌≤◌, ◌<◌, ◌≡◌, inl, inr, refl, sym, ◌∙◌, true, false, some, Option-cases, List, [],
  get_elem?, set, lt_of_get_elem?, length-set, bytes_eq_iff, leb, arith, Bool-cases,
}
use deadlocker.Engine.Types.{
  step_pending, RunStatus, PlanRow, StepResult, StmtResult, Session, LockSnapshot, Run, Notice,
}
use deadlocker.Engine.Sessions.{find_session, modify_session, find-modify, map_option}
use deadlocker.Engine.Run.{
  begun, submitted, occupy, submit, submit_if_free, submit_at_cursor, begin_step, blocked, settled,
  settle_at, settle_step, completed, release, complete_at, complete_step,
}
use deadlocker.Engine.Run.Invariant.{
  is_active, Holds, IsIdle, Inv, one_statement, evaluate-same, set_cases, Holds-modify,
  IsIdle-modify,
}

module _ (r : Run) (now : ℕ) (st : StepResult) (a : Session) (v : Inv r)
    (here : get_elem? r.steps r.cursor ≡ some st) (found : find_session r.actors st.actor ≡ some a)
    (free : a.busy ≡ false) where
  abbrev next : Run
  next = record r {
    cursor = r.cursor + 1;
    steps = set r.steps r.cursor (submitted st now);
    actors = modify_session (occupy r.cursor) r.actors st.actor;
    status = RunStatus.running;
    message = [];
  }

  submit-Inv : Inv next
  unfolding submitted occupy map_option
  submit-Inv = record {
    cursor_le = omega (
      arith,
      lt_of_get_elem? r.steps r.cursor here,
      length-set r.steps r.cursor (submitted st now),
    );
    pending = λ i s h le. elim (set_cases r.steps r.cursor (submitted st now) i s st here h) [
      | inl (e, es) ↦ absurd (omega arith)
      | inr (ne, old) ↦ v.pending i s old (omega arith)
    ];
    held = λ i s h active. elim (set_cases r.steps r.cursor (submitted st now) i s st here h) [
      | inl (e, es) ↦ (
        occupy r.cursor a,
        ground (
          arith,
          find-modify (occupy r.cursor) (λ _. refl) r.actors st.actor st.actor,
          bytes_eq_iff st.actor st.actor,
        ),
        refl,
        ground arith,
        v.idle st.actor a found free,
      )
      | inr (ne, old) ↦
          Holds-modify (occupy r.cursor) (λ _. refl) r.actors st.actor s.actor (i + 1)
            (λ same. let (b, fb, bb, nb, cb) = v.held i s old active in ground arith)
            (v.held i s old active)
    ];
    idle = IsIdle-modify (occupy r.cursor) (λ _. refl) r.actors st.actor (λ b e f. cc) v.idle;
  }

-- The begun run of `begin_step` is `next`, for the step at the cursor and its free actor.
pub begin_step-Inv :
    (r r' : Run) (now idx : ℕ) (ns : List Notice)
    → Inv r
    → begin_step r now ≡ begun r' idx ns
    → Inv r'
unfolding begin_step submit_at_cursor submit_if_free submit
begin_step-Inv r r' now idx ns v h = elim (Option-cases (get_elem? r.steps r.cursor)) [
  | inl e ↦ absurd (ground arith)
  | inr (st, e) ↦ elim (Option-cases (find_session r.actors st.actor)) [
    | inl missing ↦ absurd (ground arith)
    | inr (a, found) ↦ elim (Bool-cases a.busy) [
      | inl busy ↦ absurd (ground arith)
      | inr free ↦
          let same : next r now st a v e found free ≡ r' = ground arith in
          rw (← same) (submit-Inv r now st a v e found free)
    ]
  ]
]

-- A write of a step that stays with its actor and is active at most where it was.
module _ (r : Run) (idx : ℕ) (st st' : StepResult) (v : Inv r)
    (here : get_elem? r.steps idx ≡ some st) (actor : st'.actor ≡ st.actor)
    (submitted : idx < r.cursor) where
  rewrite_pending :
      (i : ℕ) (s : StepResult)
      → get_elem? (set r.steps idx st') i ≡ some s
      → r.cursor ≤ i
      → s.status ≡ step_pending
  rewrite_pending i s h le = elim (set_cases r.steps idx st' i s st here h) [
    | inl (e, es) ↦ absurd (omega arith)
    | inr (ne, old) ↦ v.pending i s old le
  ]

  rewrite_held :
      (is_active st'.status ≡ true → is_active st.status ≡ true)
      → (i : ℕ) (s : StepResult) → get_elem? (set r.steps idx st') i ≡ some s
      → is_active s.status ≡ true
      → Holds r.actors s.actor (i + 1)
  rewrite_held was i s h active = elim (set_cases r.steps idx st' i s st here h) [
    | inl (e, es) ↦ rw (e, es, actor) (v.held idx st here (was (rw es at active)))
    | inr (ne, old) ↦ v.held i s old active
  ]

-- An index that has a step with something else than `step_pending` lies before the cursor.
pub active_submitted :
    (r : Run) (i : ℕ) (st : StepResult)
    → Inv r
    → get_elem? r.steps i ≡ some st
    → is_active st.status ≡ true
    → i < r.cursor
active_submitted r i st v h active = elim (Bool-cases (leb r.cursor i)) [
  | inl le ↦ let p = v.pending i st h (ground arith) in absurd (ground arith)
  | inr lt ↦ ground arith
]

pub settled-same :
    (st : StepResult) (snap : LockSnapshot)
    → ((settled st snap).actor ≡ st.actor)
      × (is_active (settled st snap).status ≡ is_active st.status)
unfolding settled blocked
settled-same st snap = grind (arith, evaluate-same)

pub settle_step-Inv :
    (r : Run) (idx : ℕ) (snap : LockSnapshot)
    → idx < r.cursor
    → Inv r
    → Inv (settle_step r idx snap).0
unfolding settle_step settle_at
settle_step-Inv r idx snap lt v = elim (Option-cases (get_elem? r.steps idx)) [
  | inl e ↦ rw (e, settle_at) v
  | inr (st, e) ↦
      let (actor, active) = settled-same st snap in
      rw (e, settle_at)
        (record {
          cursor_le = omega (arith, v.cursor_le, length-set r.steps idx (settled st snap));
          pending = rewrite_pending r idx st (settled st snap) v e actor lt;
          held = rewrite_held r idx st (settled st snap) v e actor lt (λ h. sym active ∙ h);
          idle = v.idle;
        })
]

pub completed-same :
    (st : StepResult) (res : StmtResult) (plan : List PlanRow) (end duration : ℕ)
    → ((completed st res plan end duration).actor ≡ st.actor)
      × (is_active (completed st res plan end duration).status ≡ false)
unfolding completed
completed-same st res plan end duration = grind (arith, evaluate-same)

module _ (r : Run) (idx : ℕ) (st : StepResult) (res : StmtResult) (plan : List PlanRow)
    (end duration : ℕ) (v : Inv r) (here : get_elem? r.steps idx ≡ some st)
    (active : is_active st.status ≡ true) where
  abbrev done : StepResult
  done = completed st res plan end duration

  abbrev freed : List Session
  freed = modify_session (release st.sql res.error) r.actors st.actor

  -- The other statements are held by other sessions.
  complete_held :
      (i : ℕ) (s : StepResult)
      → get_elem? (set r.steps idx done) i ≡ some s
      → is_active s.status ≡ true
      → Holds freed s.actor (i + 1)
  unfolding release
  complete_held i s h on = elim (set_cases r.steps idx done i s st here h) [
    | inl (e, es) ↦ absurd (ground (arith, completed-same st res plan end duration))
    | inr (ne, old) ↦
        Holds-modify (release st.sql res.error) (λ _. refl) r.actors st.actor s.actor (i + 1)
          (λ same. ne (one_statement r i idx s st v old here on active (sym same)))
          (v.held i s old on)
  ]

  freed-IsIdle : IsIdle freed
  unfolding release
  freed-IsIdle =
      let (a, found, busy, number, quiet) = v.held idx st here active in
      IsIdle-modify (release st.sql res.error) (λ _. refl) r.actors st.actor
        (λ b e free. ground arith) v.idle

  complete-Inv :
      (status : RunStatus)
      → Inv (record r { steps = set r.steps idx done; actors = freed; status = status })
  complete-Inv status =
      let (actor, off) = completed-same st res plan end duration in
      record {
        cursor_le = omega (arith, v.cursor_le, length-set r.steps idx done);
        pending =
            rewrite_pending r idx st done v here actor (active_submitted r idx st v here active);
        held = complete_held;
        idle = freed-IsIdle;
      }

pub complete_step-Inv :
    (r : Run) (idx : ℕ) (st : StepResult) (res : StmtResult) (plan : List PlanRow)
    (end duration : ℕ)
    → get_elem? r.steps idx ≡ some st
    → is_active st.status ≡ true
    → Inv r
    → Inv (complete_step r idx res plan end duration).0
unfolding complete_step complete_at
complete_step-Inv r idx st res plan end duration here active v =
    rw (here, complete_at) (complete-Inv r idx st res plan end duration v here active _)
