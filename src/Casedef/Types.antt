-- ===== src/Casedef/Types.antt =====
-- What a scenario declares (casedef/case.go).
use deadlocker.Base.{ℕ, Bool, true, false, Option, List, Bytes, str}

-- The values that the YAML may give; `unknown` is any text that is none of them.
pub data Expectation : Type 0 where
  expect_ok expect_blocks expect_error expect_deadlock expect_timeout expect_any : Expectation
  unknown : Bytes → Expectation

unfoldable pub is_valid : Expectation → Bool
is_valid (unknown _) = false
is_valid _ = true

-- The text of an expectation.
unfoldable pub expectation_text : Expectation → Bytes
expectation_text expect_ok = str "ok"
expectation_text expect_blocks = str "blocks"
expectation_text expect_error = str "error"
expectation_text expect_deadlock = str "deadlock"
expectation_text expect_timeout = str "timeout"
expectation_text expect_any = str ""
expectation_text (unknown s) = s

pub record Actor : Type 0 where
  pub id : Bytes
  pub name : Bytes
  pub accent : Bytes

pub record DocLink : Type 0 where
  pub title : Bytes
  pub url : Bytes
  pub note : Bytes

-- The arguments, which may be of any type, are given by their texts.
pub record Step : Type 0 where
  pub actor : Bytes
  pub label : Bytes
  pub sql : Bytes
  pub args : List Bytes
  pub note : Bytes
  pub expect : Expectation

pub record MySqlConfig : Type 0 where
  pub image : Bytes
  pub isolation : Bytes
  pub lock_wait_timeout : ℕ
  pub deadlock_detect : Option Bool
  pub vars : List (Bytes × Bytes)
  pub prepared : Bool

pub record Case : Type 0 where
  pub id : Bytes
  pub name : Bytes
  pub category : Bytes
  pub description : Bytes
  pub tags : List Bytes
  pub mysql : MySqlConfig
  pub docs : List DocLink
  pub schema : List Bytes
  pub seed : List Bytes
  pub actors : List Actor
  pub steps : List Step
  pub path : Bytes
  pub built_in : Bool
  pub source : Bytes
  pub ephemeral : Bool
  pub draft_id : Bytes
