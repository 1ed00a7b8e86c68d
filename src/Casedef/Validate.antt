-- ===== src/Casedef/Validate.antt =====
-- `Validate`: the problems of a scenario, and the defaults that it gets (casedef/case.go).
pub mod Sound
use deadlocker.Base.{
  ℕ, zero, suc, ◌+◌, ◌%◌, ltb, leb, ◌==◌, Bool, true, false, not, ◌&&◌, ◌||◌, Option, none, some,
  List, [], ◌∷◌, ◌++◌, Bytes, String, length, get_or, take, bytes_eq, has_prefix, str, trim_space,
  fields, join, to_upper, map, if◌then◌else◌,
}
use deadlocker.Casedef.Types.{Expectation, is_valid, Actor, DocLink, Step, MySqlConfig, Case}

-- A problem by its kind and its place: the number of the actor, step or link, counted from one, or
-- the text that it quotes.
pub data Problem : Type 0 where
  name_required actors_required steps_required : Problem
  actor_id_required : ℕ → Problem
  duplicate_id : Bytes → Problem
  step_actor_required : ℕ → Problem
  unknown_actor : ℕ → Bytes → Problem
  sql_required : ℕ → Problem
  unknown_expect : ℕ → Expectation → Problem
  url_required : ℕ → Problem
  url_scheme : ℕ → Problem
  invalid_isolation : Bytes → Problem

unfoldable pub problem_if : Bool → Problem → List Problem
problem_if b p = if b then p ∷ [] else []

unfoldable pub is_empty_text : Bytes → Bool
is_empty_text s = bytes_eq s []

unfoldable pub default_text : Bytes → Bytes → Bytes
default_text s d = if is_empty_text s then d else s

abbrev pub accents : List String
accents = "blue" ∷ "amber" ∷ "violet" ∷ "teal" ∷ "rose" ∷ []

-- Whether an id is among those seen.
unfoldable pub is_seen : List Bytes → Bytes → Bool
is_seen [] k = false
is_seen (x ∷ xs) k = bytes_eq x k || is_seen xs k

unfoldable pub fill_actor : ℕ → Actor → Actor
fill_actor i a = record a {
  name = default_text a.name a.id;
  accent = default_text a.accent (str (get_or accents (i % 5) ""));
}

-- The loop over the actors, from index `i`: the actors with their defaults, the ids seen, and the
-- problems.
unfoldable pub validate_actors :
    ℕ → List Bytes → List Actor → List Actor × List Bytes × List Problem
validate_actors i seen [] = ([], seen, [])
validate_actors i seen (a ∷ rest) =
    let missing = is_empty_text a.id in
    let (filled, ids, problems) =
      validate_actors (i + 1) (if missing then seen else a.id ∷ seen) rest in
    (
      (if missing then a else fill_actor i a) ∷ filled,
      ids,
      (if missing
            then actor_id_required (i + 1) ∷ []
            else problem_if (is_seen seen a.id) (duplicate_id a.id))
          ++ problems,
    )

-- A short label; a long statement is cut after 63 bytes.
unfoldable pub summarise : Bytes → Bytes
summarise sql =
    let s = join (fields sql) (str " ") in if ltb 64 (length s) then take 63 s ++ str "…" else s

unfoldable pub actor_problems : List Bytes → ℕ → Step → List Problem
actor_problems seen n s =
    if is_empty_text s.actor
    then step_actor_required n ∷ []
    else problem_if (not (is_seen seen s.actor)) (unknown_actor n s.actor)

unfoldable pub step_problems : List Bytes → ℕ → Step → List Problem
step_problems seen n s =
    actor_problems seen n s
    ++ problem_if (is_empty_text (trim_space s.sql)) (sql_required n)
    ++ problem_if (not (is_valid s.expect)) (unknown_expect n s.expect)

unfoldable pub fill_step : Step → Step
fill_step s = record s { label = default_text s.label (summarise s.sql) }

unfoldable pub validate_steps : List Bytes → ℕ → List Step → List Step × List Problem
validate_steps seen i [] = ([], [])
validate_steps seen i (s ∷ rest) =
    let (filled, problems) = validate_steps seen (i + 1) rest in
    (fill_step s ∷ filled, step_problems seen (i + 1) s ++ problems)

unfoldable pub has_scheme : Bytes → Bool
has_scheme url = has_prefix url (str "http://") || has_prefix url (str "https://")

unfoldable pub doc_problems : ℕ → Bytes → List Problem
doc_problems n url =
    if is_empty_text url
    then url_required n ∷ []
    else problem_if (not (has_scheme url)) (url_scheme n)

unfoldable pub fill_doc : DocLink → DocLink
fill_doc d =
    let url = trim_space d.url in
    if not (is_empty_text url) && is_empty_text (trim_space d.title)
    then record d { url = url; title = url }
    else record d { url = url }

unfoldable pub validate_docs : ℕ → List DocLink → List DocLink × List Problem
validate_docs i [] = ([], [])
validate_docs i (d ∷ rest) =
    let (filled, problems) = validate_docs (i + 1) rest in
    (fill_doc d ∷ filled, doc_problems (i + 1) (trim_space d.url) ++ problems)

-- `strings.ReplaceAll` of a dash by a space.
unfoldable pub spaced : Bytes → Bytes
spaced [] = []
spaced (c ∷ s) = (if c == b'-' then b' ' else c) ∷ spaced s

unfoldable pub valid_isolation : Bytes → Bool
valid_isolation s =
    let level = to_upper (spaced (trim_space s)) in
    bytes_eq level (str "READ UNCOMMITTED")
    || bytes_eq level (str "READ COMMITTED")
    || bytes_eq level (str "REPEATABLE READ")
    || bytes_eq level (str "SERIALIZABLE")

unfoldable pub normalised_isolation : Case → Bytes
normalised_isolation c =
    let iso = trim_space c.mysql.isolation in
    if is_empty_text iso then [] else to_upper (spaced iso)

unfoldable pub fill_mysql : MySqlConfig → MySqlConfig
fill_mysql m = record m {
  image = default_text m.image (str "mysql:8.4");
  lock_wait_timeout = if m.lock_wait_timeout == 0 then 120 else m.lock_wait_timeout;
}

unfoldable pub isolation_problems : MySqlConfig → List Problem
isolation_problems m =
    let iso = trim_space m.isolation in
    problem_if (not (is_empty_text iso) && not (valid_isolation iso)) (invalid_isolation iso)

-- The case with its defaults, and its problems; it is valid when there are none.
unfoldable pub validate : Case → Case × List Problem
validate c =
    let (actors, seen, actors_bad) = validate_actors 0 [] c.actors in
    let (steps, steps_bad) = validate_steps seen 0 c.steps in
    let (docs, docs_bad) = validate_docs 0 c.docs in
    (
      record c { actors = actors; steps = steps; docs = docs; mysql = fill_mysql c.mysql },
      problem_if (is_empty_text (trim_space c.name)) name_required
          ++ problem_if (length c.actors == 0) actors_required
          ++ problem_if (length c.steps == 0) steps_required
          ++ actors_bad
          ++ steps_bad
          ++ docs_bad
          ++ isolation_problems c.mysql,
    )
