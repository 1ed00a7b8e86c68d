-- ===== src/Engine/Console/Trimmed.antt =====
-- The loop that tidies a typed statement (engine/console.go, `trimStatement`).
use deadlocker.Base.{
  ℕ, zero, suc, ◌+◌, ◌≤◌, ◌≡◌, refl, none, some, Option-cases, [], ◌∷◌, Bytes, length, inl, inr,
  arith, trim_space, length-trim_space,
}
use deadlocker.Engine.Console.{drop_semicolon, trim_rounds, trim_statement}

drop_semicolon-length : (s t : Bytes) → drop_semicolon s ≡ some t → length s ≡ length t + 1
unfolding drop_semicolon
drop_semicolon-length [] t h = absurd (ground arith)
drop_semicolon-length (c ∷ []) t h = ground arith
drop_semicolon-length (c ∷ d ∷ r) t h = elim (Option-cases (drop_semicolon (d ∷ r))) [
  | inl none_here ↦ absurd (ground arith)
  | inr (u, e) ↦ let n = drop_semicolon-length (d ∷ r) u e in ground arith
]

drop_semicolon_nil : drop_semicolon [] ≡ none
unfolding drop_semicolon
drop_semicolon_nil = refl

trim_rounds-lem :
    (fuel : ℕ) (s : Bytes) → length s ≤ fuel → drop_semicolon (trim_rounds fuel s) ≡ none
unfolding trim_rounds
trim_rounds-lem zero [] h = drop_semicolon_nil
trim_rounds-lem zero (c ∷ s) h = absurd (omega arith)
trim_rounds-lem (suc fuel) s h = elim (Option-cases (drop_semicolon s)) [
  | inl done ↦ ground arith
  | inr (t, e) ↦
      rw (e, trim_rounds)
        (trim_rounds-lem fuel (trim_space t)
          (omega (arith, drop_semicolon-length s t e, length-trim_space t)))
]

-- The loop over the semicolons ends by its own test, never for want of fuel: a tidied statement does
-- not end with a semicolon.
pub trim_statement_end : (s : Bytes) → drop_semicolon (trim_statement s) ≡ none
unfolding trim_statement
trim_statement_end s = trim_rounds-lem (length (trim_space s)) (trim_space s) (omega arith)
