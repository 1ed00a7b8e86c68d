-- ===== src/Engine/Run/Reach.antt =====
-- The states a run goes through: a method's critical sections as a step relation (engine/run.go,
-- engine/console.go).
use deadlocker.Base.{
  ℕ, ◌+◌, ◌<◌, ◌≡◌, ◌≢◌, inl, inr, refl, Bool, true, false, Option, none, some, Option-cases, List,
  Bytes, get_elem?, arith, Bool-cases,
}
use deadlocker.Casedef.Types.{Case}
use deadlocker.Engine.Types.{
  StepResult, StmtResult, PlanRow, Session, LockSnapshot, ConsoleEntry, Run, Notice,
}
use deadlocker.Engine.Sessions.{find_session, modify_session, find_session-id}
use deadlocker.Engine.Run.{
  new_run, setup_done, begun, begin_step, settle_step, complete_step, publish_locks,
  record_deadlock, interrupt, take_interrupt, close,
}
use deadlocker.Engine.Run.Invariant.{
  Inv, is_active, Holds-modify, IsIdle-modify, same-Inv, new_run-Inv,
}
use deadlocker.Engine.Run.Preserved.{begin_step-Inv, settle_step-Inv, complete_step-Inv}
use deadlocker.Engine.Console.{
  opening, open_session, session_opened, close_session, typed, begin_console, submit_on,
  submit_entry, modify_entry_session, occupy_by_console, release_console, complete_console,
}

-- What happens to a run, but for the end of a console statement. A step is settled after it was
-- submitted, and its statement returns while it is running or blocked.
pub data Move : Run → Run → Type 0 where
  prepared : {r : Run} → (error : Option Bytes) → Move r (setup_done r error)
  begins :
      {r r' : Run}
      → (now idx : ℕ) (ns : List Notice) → begin_step r now ≡ begun r' idx ns
      → Move r r'
  settles :
      {r : Run}
      → (idx : ℕ) (snap : LockSnapshot) → idx < r.cursor
      → Move r (settle_step r idx snap).0
  completes :
      {r : Run}
      → (idx : ℕ) (st : StepResult) (res : StmtResult) (plan : List PlanRow) (end duration : ℕ)
      → get_elem? r.steps idx ≡ some st
      → is_active st.status ≡ true
      → Move r (complete_step r idx res plan end duration).0
  publishes : {r : Run} → (snap : LockSnapshot) → Move r (publish_locks r snap).0
  reports : {r : Run} → (report : Bytes) → Move r (record_deadlock r report)
  interrupts : {r : Run} → (reason : Bytes) → Move r (interrupt r reason)
  takes : {r : Run} → Move r (take_interrupt r).0
  closes : {r : Run} → Move r (close r)
  opens :
      {r r' : Run}
      → (has_box : Bool) (s : Session) → open_session r has_box ≡ opening r' s
      → Move r r'
  opened : {r : Run} → (s : Session) (conn_id : ℕ) → Move r (session_opened r s conn_id)
  leaves : {r r' : Run} → (id : Bytes) → close_session r id ≡ some r' → Move r r'
  types :
      {r r' : Run}
      → (id text : Bytes) (now : ℕ) (e : ConsoleEntry) (among_actors : Bool) (ns : List Notice)
      → begin_console r id text now ≡ typed r' e among_actors ns
      → Move r r'

-- An actor's session is busy with this console statement.
abbrev pub Runs : Run → ConsoleEntry → Type 0
Runs r e =
    (a : Session) × (find_session r.actors e.session ≡ some a) × (a.console_id ≡ e.id) × (e.id ≢ 0)

pub data AnyMove : Run → Run → Type 0 where
  moves : {r r' : Run} → Move r r' → AnyMove r r'
  actor_answers :
      {r : Run}
      → (e : ConsoleEntry) (res : StmtResult) (plan : List PlanRow) (end duration : ℕ) → Runs r e
      → AnyMove r (complete_console r e true res plan end duration).0
  console_answers :
      {r : Run}
      → (e : ConsoleEntry) (res : StmtResult) (plan : List PlanRow) (end duration : ℕ)
      → AnyMove r (complete_console r e false res plan end duration).0

-- What a run of this case can become.
pub data Reach (c : Case) : Run → Type 0 where
  starts : Reach c (new_run c)
  then_moves : {r r' : Run} → Reach c r → AnyMove r r' → Reach c r'

-- The same without the end of a console statement.
pub data StepReach (c : Case) : Run → Type 0 where
  first : StepReach c (new_run c)
  next : {r r' : Run} → StepReach c r → Move r r' → StepReach c r'

typed-Inv :
    (r : Run) (id sql : Bytes) (n : ℕ) (a : Session)
    → find_session r.actors id ≡ some a
    → a.busy ≡ false
    → Inv r
    → Inv (record r { entry_seq = n; actors = modify_session (occupy_by_console n) r.actors a.id })
unfolding occupy_by_console
typed-Inv r id sql n a found free v =
    let same : a.id ≡ id = find_session-id r.actors id a found in
    record {
      cursor_le = v.cursor_le;
      pending = v.pending;
      held = λ i s h on.
          Holds-modify (occupy_by_console n) (λ _. refl) r.actors a.id s.actor (i + 1)
            (λ e. let (b, fb, bb, nb, cb) = v.held i s h on in ground arith) (v.held i s h on);
      idle = IsIdle-modify (occupy_by_console n) (λ _. refl) r.actors a.id (λ b e f. cc) v.idle;
    }

types-Inv :
    (r r' : Run) (id text : Bytes) (now : ℕ) (e : ConsoleEntry) (among : Bool) (ns : List Notice)
    → begin_console r id text now ≡ typed r' e among ns
    → Inv r
    → Inv r'
unfolding begin_console submit_on submit_entry modify_entry_session
types-Inv r r' id text now e among ns h v = elim (Option-cases (find_session r.actors id)) [
  | inr (a, found) ↦ elim (Bool-cases a.busy) [
    | inl busy ↦ absurd (ground arith)
    | inr free ↦
        let same : record r {
          entry_seq = r.entry_seq + 1;
          actors = modify_session (occupy_by_console (r.entry_seq + 1)) r.actors a.id;
        }
            ≡ r' =
          ground arith in
        rw (← same) (typed-Inv r id text (r.entry_seq + 1) a found free v)
  ]
  | inl missing ↦ elim (Option-cases (find_session r.consoles id)) [
    | inl none_here ↦ absurd (ground arith)
    | inr (s, found) ↦ same-Inv r r' (ground arith) (ground arith) (ground arith) v
  ]
]

-- The session that a console statement leaves is held by no step.
answers-Inv :
    (r : Run) (e : ConsoleEntry) (res : StmtResult) (plan : List PlanRow) (end duration : ℕ)
    → Runs r e
    → Inv r
    → Inv (complete_console r e true res plan end duration).0
unfolding complete_console modify_entry_session release_console
answers-Inv r e res plan end duration (a, found, number, positive) v = record {
  cursor_le = v.cursor_le;
  pending = v.pending;
  held = λ i s h on.
      Holds-modify (release_console e.sql res.error) (λ _. refl) r.actors e.session s.actor (i + 1)
        (λ same. let (b, fb, bb, nb, cb) = v.held i s h on in ground arith) (v.held i s h on);
  idle =
      IsIdle-modify (release_console e.sql res.error) (λ _. refl) r.actors e.session
        (λ b f free. refl) v.idle;
}

-- Each operation keeps the invariant.
move-Inv : (r r' : Run) → Move r r' → Inv r → Inv r'
unfolding setup_done publish_locks record_deadlock interrupt take_interrupt close open_session
    session_opened close_session
move-Inv r r' (prepared none) v = same-Inv _ _ refl refl refl v
move-Inv r r' (prepared (some t)) v = same-Inv _ _ refl refl refl v
move-Inv r r' (begins now idx ns h) v = begin_step-Inv r r' now idx ns v h
move-Inv r r' (settles idx snap lt) v = settle_step-Inv r idx snap lt v
move-Inv r r' (completes idx st res plan end duration h on) v =
    complete_step-Inv r idx st res plan end duration h on v
move-Inv r r' (publishes snap) v = same-Inv _ _ refl refl refl v
move-Inv r r' (reports report) v = same-Inv _ _ (ground arith) (ground arith) (ground arith) v
move-Inv r r' (interrupts reason) v = same-Inv _ _ refl refl refl v
move-Inv r r' takes v = same-Inv _ _ refl refl refl v
move-Inv r r' closes v = same-Inv _ _ (ground arith) (ground arith) (ground arith) v
move-Inv r r' (opens has_box s h) v = same-Inv _ _ (ground arith) (ground arith) (ground arith) v
move-Inv r r' (opened s conn_id) v = same-Inv _ _ refl refl refl v
move-Inv r r' (leaves id h) v = same-Inv _ _ (ground arith) (ground arith) (ground arith) v
move-Inv r r' (types id text now e among ns h) v = types-Inv r r' id text now e among ns h v

AnyMove-Inv : (r r' : Run) → AnyMove r r' → Inv r → Inv r'
unfolding complete_console modify_entry_session
AnyMove-Inv r r' (moves m) v = move-Inv r r' m v
AnyMove-Inv r r' (actor_answers e res plan end duration runs) v =
    answers-Inv r e res plan end duration runs v
AnyMove-Inv r r' (console_answers e res plan end duration) v = same-Inv _ _ refl refl refl v

pub Reach-Inv : (c : Case) (r : Run) → Reach c r → Inv r
Reach-Inv c r starts = new_run-Inv c
Reach-Inv c r (then_moves {r = q} w m) = AnyMove-Inv q r m (Reach-Inv c q w)
