-- ===== src/Store/Drafts/Tests.antt =====
-- A bucket of drafts that is an ordered list.
use deadlocker.Base.{
  ℕ, ◌≡◌, ◌≢◌, refl, ap, true, false, some, List, [], ◌∷◌, Bytes, All, bytes_eq, bytes_eq_iff,
  text_before, trim_space, Bool-cases, inl, inr, arith,
}
use deadlocker.Store.Scenarios.{insert_entry, find_entry}
use deadlocker.Store.Drafts.{Draft, DraftBucket, remove_entry, InOrder, saved, save_draft}
use deadlocker.Store.Drafts.Bucket.{All-insert}
use deadlocker.Store.Drafts.Kept.{IsKept, save_draft-IsKept}

before_trans :
    (a b c : Bytes) → text_before a b ≡ true → text_before b c ≡ true → text_before a c ≡ true
unfolding text_before
before_trans a [] c p q = absurd (ground arith)
before_trans a (y ∷ b) [] p q = absurd (ground arith)
before_trans [] (y ∷ b) (z ∷ c) p q = refl
before_trans (x ∷ a) (y ∷ b) (z ∷ c) p q = ground (arith, before_trans a b c)

before_total : (a b : Bytes) → a ≢ b → text_before a b ≡ false → text_before b a ≡ true
unfolding text_before
before_total [] [] ne h = absurd (ne refl)
before_total [] (y ∷ b) ne h = absurd (ground arith)
before_total (x ∷ a) [] ne h = refl
before_total (x ∷ a) (y ∷ b) ne h =
    ground
      (arith, before_total a b, ne, ap (λ n. n ∷ a) {x = x} {y = y}, ap (◌∷◌ y) {x = a} {y = b})

abbrev Above : Bytes → Bytes × Draft → Type 0
Above k e = text_before k e.0 ≡ true

Above-trans :
    (j k : Bytes) (es : List (Bytes × Draft))
    → text_before j k ≡ true
    → All (Above k) es
    → All (Above j) es
Above-trans j k [] p h = tt
Above-trans j k ((i, d) ∷ es) p (q, h) = (before_trans j k i p q, Above-trans j k es p h)

insert-InOrder :
    (k : Bytes) (d : Draft) (es : List (Bytes × Draft)) → InOrder es → InOrder (insert_entry k d es)
unfolding insert_entry
insert-InOrder k d [] h = (tt, tt)
insert-InOrder k d ((j, e) ∷ es) (above, h) = elim (Bool-cases (bytes_eq k j)) [
  | inl same ↦ rw (same, insert_entry) (rw ((bytes_eq_iff k j).0 same) (above, h))
  | inr differ ↦ elim (Bool-cases (text_before k j)) [
    | inl before ↦
        rw (differ, before, insert_entry) ((before, Above-trans k j es before above), (above, h))
    | inr after ↦
        rw (differ, after, insert_entry)
          (
            All-insert (Above j) k d es
                (before_total k j (λ e. ground (arith, bytes_eq_iff k j)) after) above,
            insert-InOrder k d es h,
          )
  ]
]

Above-remove :
    (j k : Bytes) (es : List (Bytes × Draft)) → All (Above j) es → All (Above j) (remove_entry k es)
unfolding remove_entry
Above-remove j k [] h = tt
Above-remove j k ((i, d) ∷ es) (p, h) = elim (Bool-cases (bytes_eq i k)) [
  | inl same ↦ rw (same, remove_entry) (Above-remove j k es h)
  | inr differ ↦ rw (differ, remove_entry) (p, Above-remove j k es h)
]

remove-InOrder : (k : Bytes) (es : List (Bytes × Draft)) → InOrder es → InOrder (remove_entry k es)
unfolding remove_entry
remove-InOrder k [] h = tt
remove-InOrder k ((i, d) ∷ es) (above, h) = elim (Bool-cases (bytes_eq i k)) [
  | inl same ↦ rw (same, remove_entry) (remove-InOrder k es h)
  | inr differ ↦ rw (differ, remove_entry) (Above-remove i k es above, remove-InOrder k es h)
]

abbrev Drawer : Type 0
Drawer = (es : List (Bytes × Draft)) × InOrder es

abbrev drawer : DraftBucket Drawer Draft
drawer = record {
  entries = λ s. s.0;
  get = λ s k. find_entry s.0 k;
  put = λ s k d. (insert_entry k d s.0, insert-InOrder k d s.0 s.1);
  delete = λ s k. (remove_entry k s.0, remove-InOrder k s.0 s.1);
  marshal = λ d. d;
  unmarshal = λ d. some d;
  in_order = λ s. s.1;
  get-entries = λ s k. refl;
  entries-put = λ s k d. refl;
  entries-delete = λ s k. refl;
  unmarshal-marshal = λ d. refl;
}

abbrev draft : ℕ → ℕ → Draft
draft n time = record {
  id = n ∷ [];
  name = [];
  source = b'x' ∷ [];
  scenario_id = [];
  path = [];
  created_at = time;
  updated_at = time;
}

one_before_two : text_before (1 ∷ []) (2 ∷ []) ≡ true
unfolding text_before
one_before_two = refl

abbrev two_drafts : Drawer
two_drafts = ((1 ∷ [], draft 1 5) ∷ (2 ∷ [], draft 2 6) ∷ [], ((one_before_two, tt), (tt, tt)))

some_source : bytes_eq (trim_space (b'x' ∷ [])) [] ≡ false
unfolding bytes_eq trim_space
some_source = refl

save_draft-IsKept_example :
    (s' : Drawer) × (d' : Draft) × (save_draft drawer two_drafts (draft 2 0) [] 9 ≡ saved s' d')
    × IsKept drawer two_drafts s' 9 (b'x' ∷ []) (1 ∷ []) d'
save_draft-IsKept_example =
    save_draft-IsKept drawer two_drafts (draft 2 0) [] 9 (1 ∷ [])
      ((draft 1 5, refl, refl, omega arith), ((draft 2 6, refl, refl, omega arith), tt)) some_source
