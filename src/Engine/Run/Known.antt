-- ===== src/Engine/Run/Known.antt =====
-- The actors of the steps of a run, and its sessions (engine/run.go, casedef/case.go).
use deadlocker.Base.{
  ℕ, zero, suc, ◌+◌, ◌≡◌, ◌≢◌, inl, inr, refl, sym, Bool, true, none, some, Option-cases, List, [],
  ◌∷◌, Bytes, get_elem?, set, map, All, bytes_eq, arith, Bool-cases,
}
use deadlocker.Casedef.Types.{Case, Actor, Step}
use deadlocker.Casedef.Validate.{is_seen, validate}
use deadlocker.Casedef.Validate.Sound.{actor_ids, IsStep, IsSound, validate-IsSound}
use deadlocker.Engine.Types.{
  StepResult, StmtResult, PlanRow, Session, LockSnapshot, ConsoleEntry, Run, Notice,
}
use deadlocker.Engine.Sessions.{find_session, modify_session, find-modify, map_option}
use deadlocker.Engine.Run.{
  new_step, new_steps, new_session, new_run, setup_done, begun, refused, unknown_actor, begin_step,
  submit_at_cursor, submit_if_free, submit, submitted, occupy, settle_step, settle_at, settled,
  complete_step, complete_at, completed, release, publish_locks, record_deadlock, interrupt,
  take_interrupt, close,
}
use deadlocker.Engine.Run.Invariant.{set_cases}
use deadlocker.Engine.Run.Preserved.{settled-same, completed-same}
use deadlocker.Engine.Run.Reach.{
  Move, prepared, begins, settles, completes, publishes, reports, interrupts, takes, closes, opens,
  opened, leaves, types, AnyMove, moves, actor_answers, console_answers, Reach, starts, then_moves,
}
use deadlocker.Engine.Console.{
  open_session, session_opened, close_session, typed, begin_console, submit_on, submit_entry,
  modify_entry_session, occupy_by_console, release_console, complete_console,
}

abbrev Found : List Session → Bytes → Type 0
Found actors k = (a : Session) × (find_session actors k ≡ some a)

-- Every step has its actor among the sessions.
abbrev pub Knows : Run → Type 0
Knows r = (i : ℕ) (st : StepResult) → get_elem? r.steps i ≡ some st → Found r.actors st.actor

-- The step that stood here before, of the same actor.
abbrev Before : List StepResult → ℕ → StepResult → Type 0
Before old i st = (s : StepResult) × (get_elem? old i ≡ some s) × (s.actor ≡ st.actor)

Found-modify :
    (f : Session → Session) (keeps : (s : Session) → (f s).id ≡ s.id) (actors : List Session)
    (k j : Bytes)
    → Found actors j
    → Found (modify_session f actors k) j
unfolding map_option
Found-modify f keeps actors k j (a, found) = elim (Bool-cases (bytes_eq k j)) [
  | inl same ↦ (f a, ground (arith, find-modify f keeps actors k j))
  | inr other ↦ (a, ground (arith, find-modify f keeps actors k j))
]

Before-set :
    (xs : List StepResult) (k : ℕ) (w v : StepResult)
    → get_elem? xs k ≡ some w
    → w.actor ≡ v.actor
    → (i : ℕ) (st : StepResult) → get_elem? (set xs k v) i ≡ some st
    → Before xs i st
Before-set xs k w v here actor i st h = elim (set_cases xs k v i st w here h) [
  | inl (e, es) ↦ (w, rw e here, rw es actor)
  | inr (ne, old) ↦ (st, old, refl)
]

change-Knows :
    (r r' : Run)
    → ((i : ℕ) (st : StepResult) → get_elem? r'.steps i ≡ some st → Before r.steps i st)
    → ((k : Bytes) → Found r.actors k → Found r'.actors k)
    → Knows r
    → Knows r'
change-Knows r r' steps actors v i st h =
    let (s, old, same) = steps i st h in rw (← same) (actors s.actor (v i s old))

same-Knows : (r r' : Run) → r'.steps ≡ r.steps → r'.actors ≡ r.actors → Knows r → Knows r'
same-Knows r r' s a v i st h = rw a (v i st (rw s at h))

begins-Knows :
    (r r' : Run) (now idx : ℕ) (ns : List Notice)
    → begin_step r now ≡ begun r' idx ns
    → Knows r
    → Knows r'
unfolding begin_step submit_at_cursor submit_if_free submit submitted occupy
begins-Knows r r' now idx ns h v = elim (Option-cases (get_elem? r.steps r.cursor)) [
  | inl e ↦ absurd (ground arith)
  | inr (st, e) ↦ elim (Option-cases (find_session r.actors st.actor)) [
    | inl missing ↦ absurd (ground arith)
    | inr (a, found) ↦
        let steps : r'.steps ≡ set r.steps r.cursor (submitted st now) = ground arith in
        let actors : r'.actors ≡ modify_session (occupy r.cursor) r.actors st.actor =
          ground arith in
        change-Knows r r'
          (λ i s g. Before-set r.steps r.cursor st (submitted st now) e refl i s (rw steps at g))
          (λ k f. rw actors (Found-modify (occupy r.cursor) (λ _. refl) r.actors st.actor k f)) v
  ]
]

settles-Knows :
    (r : Run) (idx : ℕ) (snap : LockSnapshot) → Knows r → Knows (settle_step r idx snap).0
unfolding settle_step settle_at
settles-Knows r idx snap v = elim (Option-cases (get_elem? r.steps idx)) [
  | inl e ↦ rw (e, settle_at) v
  | inr (st, e) ↦
      rw (e, settle_at)
        (change-Knows r
          (record r { steps = set r.steps idx (settled st snap); last_locks = some snap })
          (Before-set r.steps idx st (settled st snap) e (sym (settled-same st snap).0)) (λ k f. f)
          v)
]

completes-Knows :
    (r : Run) (idx : ℕ) (st : StepResult) (res : StmtResult) (plan : List PlanRow)
    (end duration : ℕ)
    → get_elem? r.steps idx ≡ some st
    → Knows r
    → Knows (complete_step r idx res plan end duration).0
unfolding complete_step complete_at release
completes-Knows r idx st res plan end duration e v =
    rw (e, complete_at)
      (change-Knows r (complete_at r idx res plan end duration (some st)).0
        (Before-set r.steps idx st (completed st res plan end duration) e
          (sym (completed-same st res plan end duration).0))
        (λ k f. Found-modify (release st.sql res.error) (λ _. refl) r.actors st.actor k f) v)

types-Knows :
    (r r' : Run) (id text : Bytes) (now : ℕ) (e : ConsoleEntry) (among : Bool) (ns : List Notice)
    → begin_console r id text now ≡ typed r' e among ns
    → Knows r
    → Knows r'
unfolding begin_console submit_on submit_entry modify_entry_session occupy_by_console
types-Knows r r' id text now e among ns h v = elim (Option-cases (find_session r.actors id)) [
  | inr (a, found) ↦
      let steps : r'.steps ≡ r.steps = ground arith in
      let actors : r'.actors ≡ modify_session (occupy_by_console (r.entry_seq + 1)) r.actors a.id =
        ground arith in
      change-Knows r r' (λ i s g. (s, rw steps at g, refl))
        (λ k f.
          rw actors
            (Found-modify (occupy_by_console (r.entry_seq + 1)) (λ _. refl) r.actors a.id k f))
        v
  | inl missing ↦ elim (Option-cases (find_session r.consoles id)) [
    | inl none_here ↦ absurd (ground arith)
    | inr (s, found) ↦ same-Knows r r' (ground arith) (ground arith) v
  ]
]

move-Knows : (r r' : Run) → Move r r' → Knows r → Knows r'
unfolding setup_done publish_locks record_deadlock interrupt take_interrupt close open_session
    session_opened close_session
move-Knows r r' (prepared none) v = v
move-Knows r r' (prepared (some t)) v = v
move-Knows r r' (begins now idx ns h) v = begins-Knows r r' now idx ns h v
move-Knows r r' (settles idx snap lt) v = settles-Knows r idx snap v
move-Knows r r' (completes idx st res plan end duration h on) v =
    completes-Knows r idx st res plan end duration h v
move-Knows r r' (publishes snap) v = v
move-Knows r r' (reports report) v =
    same-Knows r (record_deadlock r report) (ground arith) (ground arith) v
move-Knows r r' (interrupts reason) v = v
move-Knows r r' takes v = v
move-Knows r r' closes v = same-Knows r (close r) (ground arith) (ground arith) v
move-Knows r r' (opens has_box s h) v = same-Knows r r' (ground arith) (ground arith) v
move-Knows r r' (opened s conn_id) v = v
move-Knows r r' (leaves id h) v = same-Knows r r' (ground arith) (ground arith) v
move-Knows r r' (types id text now e among ns h) v = types-Knows r r' id text now e among ns h v

AnyMove-Knows : (r r' : Run) → AnyMove r r' → Knows r → Knows r'
unfolding complete_console modify_entry_session release_console
AnyMove-Knows r r' (moves m) v = move-Knows r r' m v
AnyMove-Knows r r' (actor_answers e res plan end duration runs) v =
    change-Knows r (complete_console r e true res plan end duration).0 (λ i s g. (s, g, refl))
      (λ k f. Found-modify (release_console e.sql res.error) (λ _. refl) r.actors e.session k f) v
AnyMove-Knows r r' (console_answers e res plan end duration) v = v

Found-new :
    (actors : List Actor) (k : Bytes)
    → is_seen (actor_ids actors) k ≡ true
    → Found (map new_session actors) k
unfolding is_seen find_session new_session
Found-new [] k h = absurd (ground arith)
Found-new (a ∷ rest) k h = elim (Bool-cases (bytes_eq a.id k)) [
  | inl same ↦ (new_session a, ground arith)
  | inr other ↦ let (s, found) = Found-new rest k (ground arith) in (s, ground arith)
]

new_steps-actor :
    (actors all : List Actor) (n i : ℕ) (sts : List Step) (st : StepResult)
    → All (IsStep all) sts
    → get_elem? (new_steps actors n sts) i ≡ some st
    → is_seen (actor_ids all) st.actor ≡ true
unfolding new_steps new_step
new_steps-actor actors all n i [] st ok h = absurd (ground arith)
new_steps-actor actors all n zero (s ∷ sts) st ((known, text, claim), ok) h = ground arith
new_steps-actor actors all n (suc i) (s ∷ sts) st (here, ok) h =
    new_steps-actor actors all (n + 1) i sts st ok h

Reach-Knows : (c : Case) (r : Run) → IsSound c → Reach c r → Knows r
unfolding new_run
Reach-Knows c r ok starts i st h =
    Found-new c.actors st.actor (new_steps-actor c.actors c.actors 0 i c.steps st ok.steps_ok h)
Reach-Knows c r ok (then_moves {r = q} w m) i st h =
    AnyMove-Knows q r m (λ j s g. Reach-Knows c q ok w j s g) i st h

-- When `Validate` has found no problem in a scenario, `Step` never refuses a step for an actor that
-- it does not know, in any state that a run of the scenario can reach.
pub valid_case-KnownActors :
    (c : Case) (r : Run) (now n : ℕ) (actor : Bytes)
    → (validate c).1 ≡ []
    → Reach (validate c).0 r
    → begin_step r now ≢ refused (unknown_actor n actor)
unfolding begin_step submit_at_cursor submit_if_free submit
valid_case-KnownActors c r now n actor fine w h = elim (Option-cases (get_elem? r.steps r.cursor)) [
  | inl e ↦ ground arith
  | inr (st, e) ↦
      let (a, found) = Reach-Knows (validate c).0 r (validate-IsSound c fine) w r.cursor st e in
      ground arith
]
