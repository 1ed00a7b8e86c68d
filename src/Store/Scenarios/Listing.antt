-- ===== src/Store/Scenarios/Listing.antt =====
-- How the revisions of a scenario are listed (store/scenarios.go).
use deadlocker.Base.{
  ℕ, zero, suc, ◌+◌, ◌^◌, ◌<◌, ltb, ◌≡◌, ◌≢◌, ◌⊎◌, inl, inr, refl, sym, ap, ◌∙◌, true, false, List,
  [], ◌∷◌, ◌++◌, Bytes, length, map, All, reverse, bytes_eq, bytes_eq_iff, insert_sorted, sort_by,
  Bool-cases, arith,
}
use mathlib.Core.List.{reverse-cons, reverse_aux}
use deadlocker.Store.Scenarios.{
  ScenarioVersion, ScenarioBuckets, mark_current, newer, limited, readable, scenario_versions,
}
use deadlocker.Store.Scenarios.Revisions.{
  Write, push_sources, Numbered, sources, readable_all, record_all, all-Holds,
}

-- Only the first revision with this source is marked.
abbrev pub OnlyNewest : Bytes → List ScenarioVersion → Type 0
OnlyNewest source [] = Unit
OnlyNewest source (v ∷ vs) =
    ((v.source ≡ source)
      × (v.is_current ≡ true)
      × All (λ (w : ScenarioVersion). w.is_current ≡ false) vs)
    ⊎ ((v.source ≢ source) × (v.is_current ≡ false) × OnlyNewest source vs)

abbrev pub versions : List ScenarioVersion → List ℕ
versions = map (λ v. v.version)

-- `n`, `n - 1`, down to one.
abbrev pub down_from : ℕ → List ℕ
down_from zero = []
down_from (suc n) = suc n ∷ down_from n

abbrev IsUnmarked : List ScenarioVersion → Type 0
IsUnmarked = All (λ (w : ScenarioVersion). w.is_current ≡ false)

All-append :
    (Q : ScenarioVersion → Type 0) (xs : List ScenarioVersion) (x : ScenarioVersion)
    → All Q xs
    → Q x
    → All Q (xs ++ (x ∷ []))
All-append Q [] x h q = (q, tt)
All-append Q (y ∷ ys) x (p, h) q = (p, All-append Q ys x h q)

All-reverse :
    (Q : ScenarioVersion → Type 0) (xs : List ScenarioVersion) → All Q xs → All Q (reverse xs)
All-reverse Q [] h = tt
All-reverse Q (x ∷ xs) (p, h) =
    rw (reverse-cons x xs) (All-append Q (reverse xs) x (All-reverse Q xs h) p)

Numbered-above :
    (n k : ℕ) (vs : List ScenarioVersion)
    → Numbered n vs
    → k < n
    → All (λ (w : ScenarioVersion). k < w.version) vs
Numbered-above n k [] num lt = tt
Numbered-above n k (v ∷ vs) (number, off, num) lt =
    (omega arith, Numbered-above (suc n) k vs num (omega arith))

insert_oldest :
    (v : ScenarioVersion) (vs : List ScenarioVersion)
    → All (λ (w : ScenarioVersion). v.version < w.version) vs
    → insert_sorted newer v vs ≡ vs ++ (v ∷ [])
unfolding insert_sorted newer
insert_oldest v [] h = refl
insert_oldest v (w ∷ vs) (lt, h) =
    let later : ltb v.version w.version ≡ true = ground arith in
    rw later (ap (◌∷◌ w) (insert_oldest v vs h))

sort-Numbered : (n : ℕ) (vs : List ScenarioVersion) → Numbered n vs → sort_by newer vs ≡ reverse vs
unfolding sort_by
sort-Numbered n [] num = refl
sort-Numbered n (v ∷ vs) (number, off, num) =
    ap (insert_sorted newer v) (sort-Numbered (suc n) vs num)
    ∙ insert_oldest v (reverse vs)
        (All-reverse _ vs (Numbered-above (suc n) v.version vs num (omega arith)))
    ∙ sym (reverse-cons v vs)

Numbered-IsUnmarked : (n : ℕ) (vs : List ScenarioVersion) → Numbered n vs → IsUnmarked vs
Numbered-IsUnmarked n [] num = tt
Numbered-IsUnmarked n (v ∷ vs) (number, off, num) = (off, Numbered-IsUnmarked (suc n) vs num)

mark_current-OnlyNewest :
    (source : Bytes) (vs : List ScenarioVersion)
    → IsUnmarked vs
    → OnlyNewest source (mark_current source vs)
unfolding mark_current
mark_current-OnlyNewest source [] h = tt
mark_current-OnlyNewest source (v ∷ vs) (off, h) = elim (Bool-cases (bytes_eq v.source source)) [
  | inl same ↦ rw (same, mark_current) (inl ((bytes_eq_iff v.source source).0 same, refl, h))
  | inr differ ↦
      rw (differ, mark_current)
        (inr (
          λ e. ground (arith, bytes_eq_iff v.source source),
          off,
          mark_current-OnlyNewest source vs h,
        ))
]

mark_current-same :
    (source : Bytes) (vs : List ScenarioVersion)
    → (sources (mark_current source vs) ≡ sources vs)
      × (versions (mark_current source vs) ≡ versions vs)
unfolding mark_current
mark_current-same source [] = (refl, refl)
mark_current-same source (v ∷ vs) = let (s, n) = mark_current-same source vs in ground (arith, s, n)

map-reverse_aux :
    {A : Type 0} (f : ScenarioVersion → A) (vs r : List ScenarioVersion)
    → map f (reverse_aux vs r) ≡ reverse_aux (map f vs) (map f r)
map-reverse_aux f [] r = refl
map-reverse_aux f (v ∷ vs) r = map-reverse_aux f vs (v ∷ r)

numbers_onto :
    (n : ℕ) (vs : List ScenarioVersion)
    → Numbered (suc n) vs
    → reverse_aux (versions vs) (down_from n) ≡ down_from (n + length vs)
numbers_onto n [] num = ap down_from {x = n} {y = n + 0} (omega arith)
numbers_onto n (v ∷ vs) (number, off, num) =
    rw number (numbers_onto (suc n) vs num)
    ∙ ap down_from {x = suc n + length vs} {y = n + suc (length vs)} (omega arith)

versions-reverse :
    (vs : List ScenarioVersion) → Numbered 1 vs → versions (reverse vs) ≡ down_from (length vs)
versions-reverse vs num =
    map-reverse_aux (λ v. v.version) vs []
    ∙ numbers_onto 0 vs num
    ∙ ap down_from {x = 0 + length vs} {y = length vs} (omega arith)

length-sources : (vs : List ScenarioVersion) → length (sources vs) ≡ length vs
length-sources [] = refl
length-sources (v ∷ vs) = ap suc (length-sources vs)

module _ {S P : Type 0} (db : ScenarioBuckets S P) where
  -- After any saves of a scenario that had no revisions, fewer than 2 ^ 64 of them: its revisions are
  -- listed newest first, numbered down to one. Their sources are those that were saved, but for each one
  -- that repeated the newest revision when it was saved. The newest revision whose source is the current
  -- one, if there is such a revision, is marked as current, and no other is.
  pub record_all-OnlyNewest :
      (s : S) (id current : Bytes) (ws : List Write)
      → id ≢ []
      → current ≢ []
      → db.entries s id ≡ []
      → length ws < 2 ^ 64
      → let listed = scenario_versions db (record_all db s id ws) id current 0 in
        let kept = push_sources [] ws in
        (sources listed ≡ reverse kept)
        × (versions listed ≡ down_from (length kept))
        × OnlyNewest current listed
  unfolding scenario_versions limited
  record_all-OnlyNewest s id current ws named known empty room =
      let (vs, holds, src) =
        all-Holds db s id [] ws named (record { entries = empty; numbered = tt }) (omega arith) in
      let given : bytes_eq current [] ≡ false = ground (arith, bytes_eq_iff current []) in
      let off = All-reverse _ vs (Numbered-IsUnmarked 1 vs holds.numbered) in
      let (same_sources, same_versions) = mark_current-same current (reverse vs) in
      rw
        (
          ap (readable db) holds.entries ∙ readable_all db vs,
          sort-Numbered 1 vs holds.numbered,
          given,
        )
        (
          same_sources ∙ map-reverse_aux (λ v. v.source) vs [] ∙ ap reverse src,
          same_versions
              ∙ versions-reverse vs holds.numbered
              ∙ ap down_from (sym (length-sources vs) ∙ ap length src),
          mark_current-OnlyNewest current (reverse vs) off,
        )
