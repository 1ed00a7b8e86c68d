-- ===== src/Engine/Diff/Laws.antt =====
-- A comparison and its two sides (engine/diff.go).
use deadlocker.Base.{
  ℕ, zero, suc, ◌+◌, ◌≡◌, refl, ap, true, Option, none, some, List, [], ◌∷◌, Bytes, length,
  bytes_eq, bytes_eq_iff, get_elem?, map, arith,
}
use deadlocker.Engine.Types.{StepResult}
use deadlocker.Engine.Records.{Record}
use deadlocker.Engine.Diff.{
  FieldDiff, StepDiff, differs, add_fields, field, setup_fields, step_fields, setup_diffs,
  step_diffs, step_diff, step_diffs_from, count_differing, longer, diff,
}

-- A difference with its sides exchanged.
abbrev pub swap_field : FieldDiff → FieldDiff
swap_field f = record { label = f.label; a = f.b; b = f.a }

abbrev pub differences_of : List StepDiff → List (List FieldDiff)
differences_of ds = map (λ d. d.differences) ds

bytes_eq-sym : (x y : Bytes) → bytes_eq x y ≡ bytes_eq y x
bytes_eq-sym x y = ground (arith, bytes_eq_iff x y, bytes_eq_iff y x)

add_fields-swap :
    (fs : List FieldDiff) → add_fields (map swap_field fs) ≡ map swap_field (add_fields fs)
unfolding add_fields
add_fields-swap [] = refl
add_fields-swap (f ∷ fs) = ground (arith, add_fields-swap fs, bytes_eq-sym f.a f.b)

setup_fields-swap : (a b : Record) → setup_fields b a ≡ map swap_field (setup_fields a b)
unfolding setup_fields field
setup_fields-swap a b = refl

step_fields-swap : (a b : StepResult) → step_fields b a ≡ map swap_field (step_fields a b)
unfolding step_fields field
step_fields-swap a b = refl

step_diffs-swap : (a b : Option StepResult) → step_diffs b a ≡ map swap_field (step_diffs a b)
unfolding step_diffs field
step_diffs-swap none none = refl
step_diffs-swap none (some b) = refl
step_diffs-swap (some a) none = refl
step_diffs-swap (some a) (some b) = rw (step_fields-swap a b) (add_fields-swap (step_fields a b))

length-map_swap : (fs : List FieldDiff) → length (map swap_field fs) ≡ length fs
length-map_swap [] = refl
length-map_swap (f ∷ fs) = ap suc (length-map_swap fs)

steps_from-swap :
    (xs ys : List StepResult) (i n : ℕ)
    → (differences_of (step_diffs_from ys xs i n)
        ≡ map (λ fs. map swap_field fs) (differences_of (step_diffs_from xs ys i n)))
      × (count_differing (step_diffs_from ys xs i n) ≡ count_differing (step_diffs_from xs ys i n))
unfolding step_diffs_from step_diff count_differing differs
steps_from-swap xs ys i zero = (refl, refl)
steps_from-swap xs ys i (suc n) =
    let (rest, count) = steps_from-swap xs ys (i + 1) n in
    let here = step_diffs-swap (get_elem? xs i) (get_elem? ys i) in
    let size = length-map_swap (step_diffs (get_elem? xs i) (get_elem? ys i)) in
    (rw (here, rest) refl, ground arith)

longer-sym : (n m : ℕ) → longer n m ≡ longer m n
unfolding longer
longer-sym n m = ground arith

-- The comparison the other way round shows the same differences with their sides exchanged, in the
-- setup and in each step, and counts as many changed steps.
pub diff-swap :
    (a b : Record)
    → ((diff b a).setup ≡ map swap_field (diff a b).setup)
      × (differences_of (diff b a).steps
          ≡ map (λ fs. map swap_field fs) (differences_of (diff a b).steps))
      × ((diff b a).changed ≡ (diff a b).changed)
unfolding diff setup_diffs
diff-swap a b =
    let n = longer-sym (length b.steps) (length a.steps) in
    let (steps, changed) =
      steps_from-swap a.steps b.steps 0 (longer (length a.steps) (length b.steps)) in
    (rw (setup_fields-swap a b) (add_fields-swap (setup_fields a b)), rw n steps, rw n changed)

-- Fields with the same text on both sides are no difference.
abbrev Alike : List FieldDiff → Type 0
Alike [] = Unit
Alike (f ∷ fs) = (f.a ≡ f.b) × Alike fs

add_fields-Alike : (fs : List FieldDiff) → Alike fs → add_fields fs ≡ []
unfolding add_fields
add_fields-Alike [] v = refl
add_fields-Alike (f ∷ fs) (e, v) = ground (arith, add_fields-Alike fs v, bytes_eq_iff f.a f.b)

setup_diffs_self : (a : Record) → setup_diffs a a ≡ []
unfolding setup_diffs setup_fields field
setup_diffs_self a =
    add_fields-Alike (setup_fields a a)
      (refl, (refl, (refl, (refl, (refl, (refl, (refl, (refl, (refl, (refl, (refl, tt)))))))))))

step_diffs_self : (s : Option StepResult) → step_diffs s s ≡ []
unfolding step_diffs step_fields field
step_diffs_self none = refl
step_diffs_self (some s) =
    add_fields-Alike (step_fields s s)
      (refl, (refl, (refl, (refl, (refl, (refl, (refl, (refl, (refl, (refl, tt))))))))))

steps_from_self :
    (xs ys : List StepResult) (i n : ℕ)
    → ((k : ℕ) → step_diffs (get_elem? xs k) (get_elem? ys k) ≡ [])
    → count_differing (step_diffs_from xs ys i n) ≡ 0
unfolding step_diffs_from step_diff count_differing differs
steps_from_self xs ys i zero alike = refl
steps_from_self xs ys i (suc n) alike =
    let here = alike i in ground (arith, steps_from_self xs ys (i + 1) n alike)

-- A run that is compared with itself shows no difference, in the setup or in any step.
pub diff_self :
    (a : Record)
    → ((diff a a).setup ≡ []) × ((diff a a).changed ≡ 0) × ((diff a a).same_case ≡ true)
unfolding diff
diff_self a = (
  setup_diffs_self a,
  steps_from_self a.steps a.steps 0 (longer (length a.steps) (length a.steps))
      (λ k. step_diffs_self (get_elem? a.steps k)),
  (bytes_eq_iff a.case_id a.case_id).1 refl,
)
