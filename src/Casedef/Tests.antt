-- ===== src/Casedef/Tests.antt =====
-- A scenario without problems.
use deadlocker.Base.{◌≡◌, refl, false, none, [], ◌∷◌, bytes_eq, trim_space}
use deadlocker.Casedef.Types.{Case, expect_any, is_valid}
use deadlocker.Casedef.Validate.{
  validate, validate_actors, validate_steps, validate_docs, problem_if, is_empty_text, is_seen,
  actor_problems, step_problems, doc_problems, isolation_problems,
}
use deadlocker.Casedef.Validate.Sound.{IsSound, validate-IsSound}

abbrev small_case : Case
small_case = record {
  id = [];
  name = b'n' ∷ [];
  category = [];
  description = [];
  tags = [];
  mysql = record {
    image = [];
    isolation = [];
    lock_wait_timeout = 0;
    deadlock_detect = none;
    vars = [];
    prepared = false;
  };
  docs = [];
  schema = [];
  seed = [];
  actors = record { id = b'a' ∷ []; name = []; accent = [] } ∷ [];
  steps =
      record {
        actor = b'a' ∷ [];
        label = [];
        sql = b'x' ∷ [];
        args = [];
        note = [];
        expect = expect_any;
      }
      ∷ [];
  path = [];
  built_in = false;
  source = [];
  ephemeral = false;
  draft_id = [];
}

small_case_fine : (validate small_case).1 ≡ []
unfolding validate validate_actors validate_steps validate_docs problem_if is_empty_text is_seen
    actor_problems step_problems doc_problems isolation_problems bytes_eq trim_space is_valid
small_case_fine = refl

validate-IsSound_example : IsSound (validate small_case).0
validate-IsSound_example = validate-IsSound small_case small_case_fine
