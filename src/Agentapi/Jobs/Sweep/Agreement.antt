-- ===== src/Agentapi/Jobs/Sweep/Agreement.antt =====
-- What the comparison of the columns reports (agentapi/jobs.go).
use deadlocker.Base.{ℕ, ◌+◌, ◌≡◌, List, [], ◌∷◌, Bytes, All, str, join, ◌++◌}
use deadlocker.Agentapi.Jobs.{MatrixColumn, MatrixResult}
use deadlocker.Agentapi.Jobs.Sweep.Summary.{
  outcomes_at, differing_from, failed_suffix, failed_labels,
}

-- One outcome for all.
abbrev pub IsUniform : List Bytes → Type 0
IsUniform os = (o : Bytes) × All (λ (x : Bytes). x ≡ o) os

-- Every step from `i` on has one outcome in all the columns that have it.
abbrev pub AgreeFrom : ℕ → List Bytes → List MatrixColumn → Type 0
AgreeFrom i [] cols = Unit
AgreeFrom i (l ∷ labels) cols = IsUniform (outcomes_at i cols) × AgreeFrom (i + 1) labels cols

abbrev pub agreement_text : MatrixResult → Bytes
agreement_text res =
    str "the "
    ++ res.axis_label
    ++ str " changes nothing here; every column that ran behaves identically"
    ++ failed_suffix (failed_labels res.columns)

abbrev pub difference_text : MatrixResult → Bytes
difference_text res =
    str "outcomes differ at "
    ++ join (differing_from 0 res.step_labels res.columns) (str "; ")
    ++ failed_suffix (failed_labels res.columns)
