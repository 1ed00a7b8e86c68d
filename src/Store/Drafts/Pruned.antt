-- ===== src/Store/Drafts/Pruned.antt =====
-- What pruning the drafts keeps (store/drafts.go).
use deadlocker.Base.{
  ℕ, suc, ◌+◌, ◌-◌, ◌≤◌, ◌<◌, leb, ◌≡◌, ◌⊎◌, inl, inr, refl, sym, ap, ◌∙◌, true, false, none, some,
  Option-cases, Bool-cases, List, [], ◌∷◌, Bytes, length, length-drop, drop, All, bytes_eq,
  bytes_eq_iff, sort_by, arith,
}
use deadlocker.Casedef.Validate.{is_seen}
use deadlocker.Store.Scenarios.{find_entry}
use deadlocker.Store.Drafts.{
  Draft, DraftBucket, touched_later, readable_drafts, read_drafts, delete_drafts, prune_drafts,
}
use deadlocker.Store.Drafts.Bucket.{
  AreDistinct, draft_ids, keys_of, find-remove, InOrder-AreDistinct, seen-remove, length-remove, In,
  seen-sort, sort-AreDistinct, length-sort, drop-AreDistinct, seen-drop, IsNoNewer, sort-newest,
}

small_few : (a b : ℕ) → leb a 60 ≡ true → a ≡ b → b ≤ 60
small_few a b small e = ground arith

cut_few : (a b c e : ℕ) → leb a 60 ≡ false → a ≡ b → c + e ≡ b → e ≡ a - 60 → c ≤ 60
cut_few a b c e large same cut dropped = ground arith

dropped_seen :
    (n : ℕ) (ds : List Draft) (k : Bytes)
    → is_seen (draft_ids (drop n ds)) k ≡ true
    → is_seen (draft_ids ds) k ≡ true
dropped_seen n ds k h = elim (Bool-cases (is_seen (draft_ids ds) k)) [
  | inl there ↦ there
  | inr absent ↦ absurd (ground (arith, h, seen-drop n ds k absent))
]

module _ {S P : Type 0} (db : DraftBucket S P) where
  -- An entry is a draft under its own id, touched before this time.
  abbrev pub IsDraftBefore : ℕ → Bytes × P → Type 0
  IsDraftBefore now e =
      (x : Draft) × (db.unmarshal e.1 ≡ some x) × (x.id ≡ e.0) × (x.updated_at < now)

  -- The same, or this draft.
  abbrev pub IsBehind : Draft → Bytes × P → Type 0
  IsBehind d e =
      (x : Draft) × (db.unmarshal e.1 ≡ some x)
      × (x.id ≡ e.0)
      × ((x ≡ d) ⊎ (x.updated_at < d.updated_at))

  pub weaken :
      (d : Draft) (es : List (Bytes × P))
      → All (IsDraftBefore d.updated_at) es
      → All (IsBehind d) es
  weaken d [] h = tt
  weaken d (e ∷ es) ((x, u, own, lt), h) = ((x, u, own, inr lt), weaken d es h)

  ids-readable :
      (d : Draft) (es : List (Bytes × P))
      → All (IsBehind d) es
      → draft_ids (readable_drafts db es) ≡ keys_of es
  unfolding readable_drafts
  ids-readable d [] h = refl
  ids-readable d ((k, p) ∷ es) ((x, u, own, _), h) = ground (arith, u, own, ids-readable d es h)

  readable-IsNoNewer :
      (d : Draft) (es : List (Bytes × P))
      → All (IsBehind d) es
      → IsNoNewer d (readable_drafts db es)
  unfolding readable_drafts
  readable-IsNoNewer d [] h = tt
  readable-IsNoNewer d ((k, p) ∷ es) ((x, u, own, late), h) =
      rw (u, readable_drafts) (late, readable-IsNoNewer d es h)

  readable_has :
      (d : Draft) (es : List (Bytes × P))
      → find_entry es d.id ≡ some (db.marshal d)
      → In d (readable_drafts db es)
  unfolding readable_drafts find_entry
  readable_has d [] h = absurd (ground arith)
  readable_has d ((k, p) ∷ es) h = elim (Bool-cases (bytes_eq k d.id)) [
    | inl same ↦
        let e : p ≡ db.marshal d = ground (arith, same, h) in
        rw (e, db.unmarshal-marshal d, readable_drafts) (inl refl)
    | inr differ ↦ elim (Option-cases (db.unmarshal p)) [
      | inl unread ↦ rw (unread, readable_drafts) (readable_has d es (ground (arith, differ, h)))
      | inr (x, read) ↦
          rw (read, readable_drafts) (inr (readable_has d es (ground (arith, differ, h))))
    ]
  ]

  length-ids : (ds : List Draft) → length (draft_ids ds) ≡ length ds
  length-ids [] = refl
  length-ids (d ∷ ds) = ap suc (length-ids ds)

  length-keys : (es : List (Bytes × P)) → length (keys_of es) ≡ length es
  length-keys [] = refl
  length-keys (e ∷ es) = ap suc (length-keys es)

  -- Every one of these drafts is in the bucket.
  abbrev AllThere : List Draft → List (Bytes × P) → Type 0
  AllThere ds es = (k : Bytes) → is_seen (draft_ids ds) k ≡ true → is_seen (keys_of es) k ≡ true

  length-delete_drafts :
      (s : S) (ds : List Draft)
      → AreDistinct (draft_ids ds)
      → AllThere ds (db.entries s)
      → length (db.entries (delete_drafts db s ds)) + length ds ≡ length (db.entries s)
  unfolding delete_drafts is_seen
  length-delete_drafts s [] distinct there = omega arith
  length-delete_drafts s (d ∷ ds) (fresh, distinct) there =
      let gone = db.entries-delete s d.id in
      let rest = length-delete_drafts (db.delete s d.id) ds distinct (λ k h.
        ap (λ es. is_seen (keys_of es) k) gone
        ∙ seen-remove d.id k (db.entries s)
            (ground (arith, bytes_eq_iff d.id k, ap (is_seen (draft_ids ds)) {x = d.id} {y = k}))
        ∙ there k (ground (arith, h))) in
      let one =
        length-remove d.id (db.entries s) (InOrder-AreDistinct (db.entries s) (db.in_order s))
          (there d.id (ground (arith, bytes_eq_iff d.id d.id))) in
      omega (arith, rest, one, ap length gone)

  get-delete_drafts :
      (s : S) (ds : List Draft) (k : Bytes)
      → is_seen (draft_ids ds) k ≡ false
      → find_entry (db.entries (delete_drafts db s ds)) k ≡ find_entry (db.entries s) k
  unfolding delete_drafts is_seen
  get-delete_drafts s [] k h = refl
  get-delete_drafts s (d ∷ ds) k h =
      get-delete_drafts (db.delete s d.id) ds k (ground (arith, h))
      ∙ ap (λ es. find_entry es k) (db.entries-delete s d.id)
      ∙ ground (arith, find-remove d.id k (db.entries s))

  -- A draft that is deleted is gone, and any other is as it was.
  delete_drafts-cases :
      (s : S) (ds : List Draft) (k : Bytes)
      → (find_entry (db.entries (delete_drafts db s ds)) k ≡ find_entry (db.entries s) k)
        ⊎ (find_entry (db.entries (delete_drafts db s ds)) k ≡ none)
  unfolding delete_drafts
  delete_drafts-cases s [] k = inl refl
  delete_drafts-cases s (d ∷ ds) k =
      let removed =
        ap (λ es. find_entry es k) (db.entries-delete s d.id) ∙ find-remove d.id k (db.entries s) in
      elim (delete_drafts-cases (db.delete s d.id) ds k) [
        | inr gone ↦ inr gone
        | inl same ↦ elim (Bool-cases (bytes_eq d.id k)) [
          | inl this ↦ inr (same ∙ removed ∙ rw this refl)
          | inr other ↦ inl (same ∙ removed ∙ rw other refl)
        ]
      ]

  pub record IsPruned (s s' : S) (d : Draft) (k : Bytes) : Type 0 where
    pub few : length (db.entries s') ≤ 60
    pub kept : find_entry (db.entries s') d.id ≡ some (db.marshal d)
    pub others :
        (find_entry (db.entries s') k ≡ find_entry (db.entries s) k)
        ⊎ (find_entry (db.entries s') k ≡ none)

  pub prune_drafts-IsPruned :
      (s : S) (d : Draft) (k : Bytes)
      → All (IsBehind d) (db.entries s)
      → find_entry (db.entries s) d.id ≡ some (db.marshal d)
      → IsPruned s (prune_drafts db s) d k
  unfolding prune_drafts read_drafts is_seen
  prune_drafts-IsPruned s d k behind there =
      let es = db.entries s in
      let read = readable_drafts db es in
      let sorted = sort_by touched_later read in
      let ids = ids-readable d es behind in
      let n : length sorted ≡ length es =
        length-sort read ∙ sym (length-ids read) ∙ ap length ids ∙ length-keys es in
      let distinct : AreDistinct (draft_ids read) =
        rw ids (InOrder-AreDistinct es (db.in_order s)) in
      let apart = sort-AreDistinct read distinct in
      let (rest, first) =
        sort-newest d read (readable_has d es there) (readable-IsNoNewer d es behind) in
      let spared : is_seen (draft_ids (drop 60 sorted)) d.id ≡ false =
        rw first (seen-drop 59 rest d.id (rw first at apart).0) in
      let cut = length-delete_drafts s (drop 60 sorted) (drop-AreDistinct 60 sorted apart) (λ j h.
        ap (λ x. is_seen x j) (sym ids) ∙ sym (seen-sort read j) ∙ dropped_seen 60 sorted j h) in
      elim (Bool-cases (leb (length sorted) 60)) [
        | inl small ↦
            rw (small, prune_drafts)
              (record {
                few = small_few (length sorted) (length es) small n;
                kept = there;
                others = inl refl;
              })
        | inr large ↦
            rw (large, prune_drafts)
              (record {
                few = cut_few (length sorted) (length es) _ _ large n cut (length-drop 60 sorted);
                kept = get-delete_drafts s (drop 60 sorted) d.id spared ∙ there;
                others = delete_drafts-cases s (drop 60 sorted) k;
              })
      ]
