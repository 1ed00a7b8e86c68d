-- ===== src/Store/Drafts/Bucket.antt =====
-- Entries that are written and deleted, and drafts that are sorted (store/drafts.go).
use deadlocker.Base.{
  ℕ, zero, suc, ◌+◌, ◌<◌, ◌≡◌, ◌⊎◌, inl, inr, refl, sym, ap, ◌∙◌, true, false, ◌||◌, none, some,
  Bool-cases, List, [], ◌∷◌, Bytes, length, drop, map, All, bytes_eq, bytes_eq_iff, text_before,
  insert_sorted, sort_by, if◌then◌else◌, arith,
}
use deadlocker.Casedef.Validate.{is_seen}
use deadlocker.Store.Scenarios.{insert_entry, find_entry}
use deadlocker.Store.Drafts.{Draft, remove_entry, InOrder, touched_later}

abbrev pub AreDistinct : List Bytes → Type 0
AreDistinct [] = Unit
AreDistinct (x ∷ xs) = (is_seen xs x ≡ false) × AreDistinct xs

abbrev pub draft_ids : List Draft → List Bytes
draft_ids = map (λ d. d.id)

text_before_self : (k : Bytes) → text_before k k ≡ false
unfolding text_before
text_before_self [] = refl
text_before_self (c ∷ k) = ground (arith, text_before_self k)

module _ {P : Type 0} where
  abbrev pub keys_of : List (Bytes × P) → List Bytes
  keys_of = map (λ e. e.0)

  pub find-insert :
      (k j : Bytes) (p : P) (es : List (Bytes × P))
      → find_entry (insert_entry k p es) j ≡ (if bytes_eq k j then some p else find_entry es j)
  unfolding find_entry insert_entry
  find-insert k j p [] = ground arith
  find-insert k j p ((i, q) ∷ es) =
      ground (arith, find-insert k j p es, bytes_eq_iff k i, bytes_eq_iff k j, bytes_eq_iff i j)

  pub find-remove :
      (k j : Bytes) (es : List (Bytes × P))
      → find_entry (remove_entry k es) j ≡ (if bytes_eq k j then none else find_entry es j)
  unfolding find_entry remove_entry
  find-remove k j [] = ground arith
  find-remove k j ((i, q) ∷ es) =
      ground (arith, find-remove k j es, bytes_eq_iff i k, bytes_eq_iff k j, bytes_eq_iff i j)

  above_unseen :
      (k : Bytes) (es : List (Bytes × P))
      → All (λ (e : Bytes × P). text_before k e.0 ≡ true) es
      → is_seen (keys_of es) k ≡ false
  unfolding is_seen
  above_unseen k [] h = refl
  above_unseen k ((j, p) ∷ es) (before, h) = ground (
    arith,
    above_unseen k es h,
    bytes_eq_iff j k,
    text_before_self k,
    ap (text_before k) {x = j} {y = k},
  )

  pub InOrder-AreDistinct : (es : List (Bytes × P)) → InOrder es → AreDistinct (keys_of es)
  InOrder-AreDistinct [] h = tt
  InOrder-AreDistinct ((k, p) ∷ es) (above, h) = (above_unseen k es above, InOrder-AreDistinct es h)

  pub seen-remove :
      (k j : Bytes) (es : List (Bytes × P))
      → bytes_eq k j ≡ false
      → is_seen (keys_of (remove_entry k es)) j ≡ is_seen (keys_of es) j
  unfolding is_seen remove_entry
  seen-remove k j [] h = refl
  seen-remove k j ((i, q) ∷ es) h =
      ground (arith, seen-remove k j es h, bytes_eq_iff i k, bytes_eq_iff k j, bytes_eq_iff i j)

  length-remove_unseen :
      (k : Bytes) (es : List (Bytes × P))
      → is_seen (keys_of es) k ≡ false
      → length (remove_entry k es) ≡ length es
  unfolding is_seen remove_entry
  length-remove_unseen k [] h = refl
  length-remove_unseen k ((i, q) ∷ es) h = ground (arith, length-remove_unseen k es)

  pub length-remove :
      (k : Bytes) (es : List (Bytes × P))
      → AreDistinct (keys_of es)
      → is_seen (keys_of es) k ≡ true
      → length (remove_entry k es) + 1 ≡ length es
  unfolding is_seen remove_entry
  length-remove k [] d h = absurd (ground arith)
  length-remove k ((i, q) ∷ es) (fresh, d) h = elim (Bool-cases (bytes_eq i k)) [
    | inl same ↦
        let e = (bytes_eq_iff i k).0 same in
        let unseen : is_seen (keys_of es) k ≡ false = sym (ap (is_seen (keys_of es)) e) ∙ fresh in
        ground (arith, same, length-remove_unseen k es unseen)
    | inr differ ↦ ground (arith, differ, length-remove k es d)
  ]

  pub All-insert :
      (Q : Bytes × P → Type 0) (k : Bytes) (p : P) (es : List (Bytes × P))
      → Q (k, p)
      → All Q es
      → All Q (insert_entry k p es)
  unfolding insert_entry
  All-insert Q k p [] q h = (q, tt)
  All-insert Q k p ((j, r) ∷ es) q (qj, h) = elim (Bool-cases (bytes_eq k j)) [
    | inl same ↦ rw (same, insert_entry) (q, h)
    | inr differ ↦ elim (Bool-cases (text_before k j)) [
      | inl before ↦ rw (differ, before, insert_entry) (q, (qj, h))
      | inr after ↦ rw (differ, after, insert_entry) (qj, All-insert Q k p es q h)
    ]
  ]

-- A draft among others.
abbrev pub In : Draft → List Draft → Type 0
In d [] = ⊥
In d (x ∷ xs) = (x ≡ d) ⊎ In d xs

seen-insert :
    (d : Draft) (ds : List Draft) (k : Bytes)
    → is_seen (draft_ids (insert_sorted touched_later d ds)) k
      ≡ (bytes_eq d.id k || is_seen (draft_ids ds) k)
unfolding is_seen insert_sorted
seen-insert d [] k = refl
seen-insert d (x ∷ ds) k = ground (arith, seen-insert d ds k)

pub seen-sort :
    (ds : List Draft) (k : Bytes)
    → is_seen (draft_ids (sort_by touched_later ds)) k ≡ is_seen (draft_ids ds) k
unfolding is_seen sort_by
seen-sort [] k = refl
seen-sort (d ∷ ds) k =
    seen-insert d (sort_by touched_later ds) k ∙ ap (λ b. bytes_eq d.id k || b) (seen-sort ds k)

insert-AreDistinct :
    (d : Draft) (ds : List Draft)
    → is_seen (draft_ids ds) d.id ≡ false
    → AreDistinct (draft_ids ds)
    → AreDistinct (draft_ids (insert_sorted touched_later d ds))
unfolding insert_sorted is_seen
insert-AreDistinct d [] fresh h = (refl, tt)
insert-AreDistinct d (x ∷ ds) fresh (fx, h) = elim (Bool-cases (touched_later x d)) [
  | inl later ↦
      rw (later, insert_sorted)
        (
          ground (arith, seen-insert d ds x.id, bytes_eq_iff d.id x.id, bytes_eq_iff x.id d.id),
          insert-AreDistinct d ds (ground arith) h,
        )
  | inr older ↦ rw (older, insert_sorted) (fresh, (fx, h))
]

pub sort-AreDistinct :
    (ds : List Draft)
    → AreDistinct (draft_ids ds)
    → AreDistinct (draft_ids (sort_by touched_later ds))
unfolding sort_by
sort-AreDistinct [] h = tt
sort-AreDistinct (d ∷ ds) (fresh, h) =
    insert-AreDistinct d (sort_by touched_later ds) (seen-sort ds d.id ∙ fresh)
      (sort-AreDistinct ds h)

length-insert :
    (d : Draft) (ds : List Draft) → length (insert_sorted touched_later d ds) ≡ suc (length ds)
unfolding insert_sorted
length-insert d [] = refl
length-insert d (x ∷ ds) = ground (arith, length-insert d ds)

pub length-sort : (ds : List Draft) → length (sort_by touched_later ds) ≡ length ds
unfolding sort_by
length-sort [] = refl
length-sort (d ∷ ds) = length-insert d (sort_by touched_later ds) ∙ ap suc (length-sort ds)

pub drop-AreDistinct :
    (n : ℕ) (ds : List Draft) → AreDistinct (draft_ids ds) → AreDistinct (draft_ids (drop n ds))
drop-AreDistinct zero ds h = h
drop-AreDistinct (suc n) [] h = tt
drop-AreDistinct (suc n) (d ∷ ds) (fresh, h) = drop-AreDistinct n ds h

pub seen-drop :
    (n : ℕ) (ds : List Draft) (k : Bytes)
    → is_seen (draft_ids ds) k ≡ false
    → is_seen (draft_ids (drop n ds)) k ≡ false
unfolding is_seen
seen-drop zero ds k h = h
seen-drop (suc n) [] k h = refl
seen-drop (suc n) (d ∷ ds) k h = seen-drop n ds k (ground arith)

-- No newer than this draft.
abbrev pub IsNoNewer : Draft → List Draft → Type 0
IsNoNewer d = All (λ (x : Draft). (x ≡ d) ⊎ (x.updated_at < d.updated_at))

insert-IsNoNewer :
    (d x : Draft) (ds : List Draft)
    → (x ≡ d) ⊎ (x.updated_at < d.updated_at)
    → IsNoNewer d ds
    → IsNoNewer d (insert_sorted touched_later x ds)
unfolding insert_sorted
insert-IsNoNewer d x [] h t = (h, tt)
insert-IsNoNewer d x (y ∷ ds) h (hy, t) = elim (Bool-cases (touched_later y x)) [
  | inl later ↦ rw (later, insert_sorted) (hy, insert-IsNoNewer d x ds h t)
  | inr older ↦ rw (older, insert_sorted) (h, (hy, t))
]

sort-IsNoNewer :
    (d : Draft) (ds : List Draft) → IsNoNewer d ds → IsNoNewer d (sort_by touched_later ds)
unfolding sort_by
sort-IsNoNewer d [] h = tt
sort-IsNoNewer d (x ∷ ds) (hx, h) =
    insert-IsNoNewer d x (sort_by touched_later ds) hx (sort-IsNoNewer d ds h)

insert-newest :
    (d : Draft) (ds : List Draft)
    → IsNoNewer d ds
    → (rest : List Draft) × (insert_sorted touched_later d ds ≡ d ∷ rest)
unfolding insert_sorted touched_later
insert-newest d [] h = ([], refl)
insert-newest d (x ∷ ds) (inl same, h) = (x ∷ ds, ground (arith, ap (λ y. y.updated_at) same))
insert-newest d (x ∷ ds) (inr older, h) = (x ∷ ds, ground arith)

insert_behind :
    (x d : Draft) (rest : List Draft)
    → x.updated_at < d.updated_at
    → insert_sorted touched_later x (d ∷ rest) ≡ d ∷ insert_sorted touched_later x rest
unfolding insert_sorted touched_later
insert_behind x d rest older = ground arith

-- The draft that was touched last is listed first.
pub sort-newest :
    (d : Draft) (ds : List Draft)
    → In d ds
    → IsNoNewer d ds
    → (rest : List Draft) × (sort_by touched_later ds ≡ d ∷ rest)
unfolding sort_by
sort-newest d [] there h = absurd there
sort-newest d (x ∷ ds) there (inl same, h) =
    let (rest, e) = insert-newest d (sort_by touched_later ds) (sort-IsNoNewer d ds h) in
    (rest, ap (λ y. insert_sorted touched_later y (sort_by touched_later ds)) same ∙ e)
sort-newest d (x ∷ ds) (inl e) (inr older, h) = absurd (ground (arith, ap (λ y. y.updated_at) e))
sort-newest d (x ∷ ds) (inr there) (inr older, h) =
    let (rest, e) = sort-newest d ds there h in
    (
      insert_sorted touched_later x rest,
      ap (insert_sorted touched_later x) e ∙ insert_behind x d rest older,
    )
