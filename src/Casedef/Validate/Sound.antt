-- ===== src/Casedef/Validate/Sound.antt =====
-- Scenarios without problems (casedef/case.go).
use deadlocker.Base.{
  ℕ, suc, ◌+◌, ◌==◌, ◌≡◌, refl, ap, Bool, true, false, not, ◌||◌, List, [], ◌∷◌, ◌++◌, Bytes,
  length, All, bytes_eq_iff, trim_space, map, arith, Bool-cases, inl, inr,
}
use deadlocker.Casedef.Types.{is_valid, Actor, DocLink, Step, Case}
use deadlocker.Casedef.Validate.{
  Problem, duplicate_id, sql_required, unknown_expect, unknown_actor, url_scheme, name_required,
  actors_required, steps_required, problem_if, is_empty_text, default_text, is_seen, fill_actor,
  validate_actors, actor_problems, step_problems, fill_step, validate_steps, has_scheme,
  doc_problems, fill_doc, validate_docs, isolation_problems, validate,
}

abbrev pub actor_ids : List Actor → List Bytes
actor_ids xs = map (λ a. a.id) xs

-- No id stands twice.
abbrev pub IsUnique : List Bytes → Type 0
IsUnique [] = Unit
IsUnique (k ∷ ks) = (is_seen ks k ≡ false) × IsUnique ks

abbrev pub IsActor : Actor → Type 0
IsActor a = (is_empty_text a.id ≡ false) × (is_empty_text a.name ≡ false)

abbrev pub IsStep : List Actor → Step → Type 0
IsStep actors s =
    (is_seen (actor_ids actors) s.actor ≡ true)
    × (is_empty_text (trim_space s.sql) ≡ false)
    × (is_valid s.expect ≡ true)

abbrev pub IsDoc : DocLink → Type 0
IsDoc d = (is_empty_text d.url ≡ false) × (has_scheme d.url ≡ true)

-- A case that can be run.
pub record IsSound (c : Case) : Type 0 where
  pub named : is_empty_text (trim_space c.name) ≡ false
  pub has_actors : (length c.actors == 0) ≡ false
  pub has_steps : (length c.steps == 0) ≡ false
  pub unique : IsUnique (actor_ids c.actors)
  pub actors_ok : All IsActor c.actors
  pub steps_ok : All (IsStep c.actors) c.steps
  pub docs_ok : All IsDoc c.docs

append-none : (ps qs : List Problem) → ps ++ qs ≡ [] → (ps ≡ []) × (qs ≡ [])
append-none [] qs h = (refl, h)
append-none (p ∷ ps) qs h = absurd (ground arith)

problem_if-none : (b : Bool) (p : Problem) → problem_if b p ≡ [] → b ≡ false
unfolding problem_if
problem_if-none b p h = ground arith

-- What is new next to these ids.
abbrev IsFresh : List Bytes → List Actor → Type 0
IsFresh seen xs = All (λ (a : Actor). is_seen seen a.id ≡ false) xs

IsFresh-head :
    (k : Bytes) (seen : List Bytes) (xs : List Actor)
    → IsFresh (k ∷ seen) xs
    → (is_seen (actor_ids xs) k ≡ false) × IsFresh seen xs
unfolding is_seen
IsFresh-head k seen [] v = (refl, tt)
IsFresh-head k seen (a ∷ xs) (here, v) =
    let (rest, fresh) = IsFresh-head k seen xs v in
    (ground (arith, bytes_eq_iff k a.id, bytes_eq_iff a.id k), (ground arith, fresh))

fill_actor-IsActor :
    (i : ℕ) (a : Actor)
    → is_empty_text a.id ≡ false
    → ((fill_actor i a).id ≡ a.id) × IsActor (fill_actor i a)
unfolding fill_actor default_text
fill_actor-IsActor i a named = (refl, (named, ground arith))

-- The actors of a case without problems: they are named, no id stands twice, and the ids that the
-- loop has seen are theirs.
validate_actors-lem :
    (i : ℕ) (seen : List Bytes) (xs : List Actor)
    → (validate_actors i seen xs).2 ≡ []
    → All IsActor (validate_actors i seen xs).0
      × IsUnique (actor_ids (validate_actors i seen xs).0)
      × IsFresh seen (validate_actors i seen xs).0
      × ((k : Bytes)
          → is_seen (validate_actors i seen xs).1 k
            ≡ (is_seen seen k || is_seen (actor_ids (validate_actors i seen xs).0) k))
      × (length (validate_actors i seen xs).0 ≡ length xs)
unfolding validate_actors is_seen
validate_actors-lem i seen [] h = (tt, tt, tt, (λ k. ground arith), refl)
validate_actors-lem i seen (a ∷ rest) h = elim (Bool-cases (is_empty_text a.id)) [
  | inl missing ↦ absurd (ground arith)
  | inr named ↦
      let (here, later) =
        append-none (problem_if (is_seen seen a.id) (duplicate_id a.id))
          (validate_actors (i + 1) (a.id ∷ seen) rest).2 (rw named at h) in
      let new = problem_if-none (is_seen seen a.id) (duplicate_id a.id) here in
      let (ok, unique, fresh, ids, size) = validate_actors-lem (i + 1) (a.id ∷ seen) rest later in
      let (apart, fresh') =
        IsFresh-head a.id seen (validate_actors (i + 1) (a.id ∷ seen) rest).0 fresh in
      let (same, good) = fill_actor-IsActor i a named in
      rw named (
        (good, ok),
        (rw same apart, unique),
        (rw same new, fresh'),
        (λ k. rw same (ground (arith, ids k))),
        ap suc size,
      )
]

validate_steps-lem :
    (actors : List Actor) (seen : List Bytes) (i : ℕ) (xs : List Step)
    → ((k : Bytes) → is_seen seen k ≡ is_seen (actor_ids actors) k)
    → (validate_steps seen i xs).1 ≡ []
    → All (IsStep actors) (validate_steps seen i xs).0
      × (length (validate_steps seen i xs).0 ≡ length xs)
unfolding validate_steps step_problems actor_problems fill_step
validate_steps-lem actors seen i [] ids h = (tt, refl)
validate_steps-lem actors seen i (s ∷ rest) ids h =
    let (here, later) =
      append-none (step_problems seen (i + 1) s) (validate_steps seen (i + 1) rest).1 h in
    let unknown = actor_problems seen (i + 1) s in
    let silent = problem_if (is_empty_text (trim_space s.sql)) (sql_required (i + 1)) in
    let vague = problem_if (not (is_valid s.expect)) (unknown_expect (i + 1) s.expect) in
    let (both, claim) = append-none (unknown ++ silent) vague here in
    let (who, what) = append-none unknown silent both in
    let text = problem_if-none (is_empty_text (trim_space s.sql)) (sql_required (i + 1)) what in
    let valid = problem_if-none (not (is_valid s.expect)) (unknown_expect (i + 1) s.expect) claim in
    let known : is_seen (actor_ids actors) s.actor ≡ true = ground (
      arith,
      ids s.actor,
      problem_if-none (not (is_seen seen s.actor)) (unknown_actor (i + 1) s.actor),
    ) in
    let (ok, size) = validate_steps-lem actors seen (i + 1) rest ids later in
    (((known, text, ground arith), ok), ap suc size)

fill_doc-url : (d : DocLink) → (fill_doc d).url ≡ trim_space d.url
unfolding fill_doc
fill_doc-url d = ground arith

validate_docs-lem :
    (i : ℕ) (xs : List DocLink) → (validate_docs i xs).1 ≡ [] → All IsDoc (validate_docs i xs).0
unfolding validate_docs doc_problems
validate_docs-lem i [] h = tt
validate_docs-lem i (d ∷ rest) h =
    let (here, later) =
      append-none (doc_problems (i + 1) (trim_space d.url)) (validate_docs (i + 1) rest).1 h in
    let url : (fill_doc d).url ≡ trim_space d.url = fill_doc-url d in
    let there : is_empty_text (trim_space d.url) ≡ false = ground arith in
    let scheme : has_scheme (trim_space d.url) ≡ true =
      ground (arith, problem_if-none (not (has_scheme (trim_space d.url))) (url_scheme (i + 1))) in
    ((rw url there, rw url scheme), validate_docs-lem (i + 1) rest later)

-- A scenario in which `Validate` finds no problem is sound once it has its defaults: it has a name,
-- actors and steps, no two actors share an id, every actor has an id and a name, every step has a
-- statement, a known claim and one of the actors, and every link has a web address.
pub validate-IsSound : (c : Case) → (validate c).1 ≡ [] → IsSound (validate c).0
unfolding validate is_seen
validate-IsSound c h =
    let actors = validate_actors 0 [] c.actors in
    let steps = validate_steps actors.1 0 c.steps in
    let docs = validate_docs 0 c.docs in
    let p1 = problem_if (is_empty_text (trim_space c.name)) name_required in
    let p2 = problem_if (length c.actors == 0) actors_required in
    let p3 = problem_if (length c.steps == 0) steps_required in
    let (h6, isolation_fine) =
      append-none (p1 ++ p2 ++ p3 ++ actors.2 ++ steps.1 ++ docs.1) (isolation_problems c.mysql)
        h in
    let (h5, docs_fine) = append-none (p1 ++ p2 ++ p3 ++ actors.2 ++ steps.1) docs.1 h6 in
    let (h4, steps_fine) = append-none (p1 ++ p2 ++ p3 ++ actors.2) steps.1 h5 in
    let (h3, actors_fine) = append-none (p1 ++ p2 ++ p3) actors.2 h4 in
    let (h2, some_step) = append-none (p1 ++ p2) p3 h3 in
    let (name, some_actor) = append-none p1 p2 h2 in
    let (ok, unique, fresh, ids, size) = validate_actors-lem 0 [] c.actors actors_fine in
    let (steps_ok, steps_size) =
      validate_steps-lem actors.0 actors.1 0 c.steps (λ k. ids k) steps_fine in
    record {
      named = problem_if-none (is_empty_text (trim_space c.name)) name_required name;
      has_actors = rw size (problem_if-none (length c.actors == 0) actors_required some_actor);
      has_steps = rw steps_size (problem_if-none (length c.steps == 0) steps_required some_step);
      unique = unique;
      actors_ok = ok;
      steps_ok = steps_ok;
      docs_ok = validate_docs-lem 0 c.docs docs_fine;
    }
