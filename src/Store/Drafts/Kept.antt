-- ===== src/Store/Drafts/Kept.antt =====
-- What saving a draft keeps (store/drafts.go).
use deadlocker.Base.{
  ℕ, ◌≤◌, ◌≡◌, ◌⊎◌, inl, inr, refl, sym, ap, ◌∙◌, false, Option, none, some, Bool-cases, [], Bytes,
  length, All, bytes_eq, bytes_eq_iff, trim_space, arith,
}
use deadlocker.Store.Scenarios.{find_entry}
use deadlocker.Store.Drafts.{
  Draft, DraftBucket, saved, named, with_id, started_at, stamped, prune_drafts, stored_draft,
  store_draft, save_draft,
}
use deadlocker.Store.Drafts.Bucket.{find-insert, All-insert}
use deadlocker.Store.Drafts.Pruned.{IsDraftBefore, IsBehind, weaken, prune_drafts-IsPruned}

module _ {S P : Type 0} (db : DraftBucket S P) where
  stored-get :
      (s : S) (id : Bytes) (d : Draft)
      → find_entry (db.entries s) id ≡ some (db.marshal d)
      → stored_draft db s id ≡ some d
  unfolding stored_draft
  stored-get s id d h = let e = db.get-entries s id ∙ h in ground (arith, e, db.unmarshal-marshal d)

  -- When it was started.
  abbrev pub HasStart : S → ℕ → Draft → Type 0
  HasStart s now d =
      (stored_draft db s d.id ≡ none)
      ⊎ ((prev : Draft) × (stored_draft db s d.id ≡ some prev)
          × ((prev.created_at ≡ 0) ⊎ (d.created_at ≡ prev.created_at)))

  stamped-start :
      (s : S) (o : Option Draft) (now : ℕ) (d : Draft)
      → stored_draft db s d.id ≡ o
      → HasStart s now (stamped o now d)
  unfolding stamped started_at
  stamped-start s none now d e = inl e
  stamped-start s (some prev) now d e = inr (prev, e, ground arith)

  -- What saving leaves, for the draft and for any other id.
  pub record IsKept (s s' : S) (now : ℕ) (source k : Bytes) (d : Draft) : Type 0 where
    pub few : length (db.entries s') ≤ 60
    pub there : stored_draft db s' d.id ≡ some d
    pub same_source : d.source ≡ source
    pub touched : d.updated_at ≡ now
    pub start : HasStart s now d
    pub others :
        (k ≡ d.id)
        ⊎ ((find_entry (db.entries s') k ≡ find_entry (db.entries s) k)
            ⊎ (find_entry (db.entries s') k ≡ none))

  abbrev put_others :
      (s : S) (d : Draft) (k : Bytes) (s' : S)
      → (find_entry (db.entries s') k ≡ find_entry (db.entries (db.put s d.id (db.marshal d))) k)
        ⊎ (find_entry (db.entries s') k ≡ none)
      → (k ≡ d.id)
        ⊎ ((find_entry (db.entries s') k ≡ find_entry (db.entries s) k)
            ⊎ (find_entry (db.entries s') k ≡ none))
  put_others s d k s' h = elim (Bool-cases (bytes_eq d.id k)) [
    | inl this ↦ inl (sym ((bytes_eq_iff d.id k).0 this))
    | inr other ↦ elim h [
      | inr gone ↦ inr (inr gone)
      | inl same ↦ inr (
          inl (
            same
            ∙ ap (λ es. find_entry es k) (db.entries-put s d.id (db.marshal d))
            ∙ find-insert d.id k (db.marshal d) (db.entries s)
            ∙ rw other refl))
    ]
  ]

  store_draft-IsKept :
      (s : S) (d : Draft) (now : ℕ) (k : Bytes)
      → All (IsDraftBefore db now) (db.entries s)
      → (s' : S) × (d' : Draft) × (store_draft db s d now ≡ saved s' d')
        × IsKept s s' now d.source k d'
  unfolding store_draft stamped
  store_draft-IsKept s d now k before =
      let d' = stamped (stored_draft db s d.id) now d in
      let s1 = db.put s d'.id (db.marshal d') in
      let es1 = db.entries-put s d'.id (db.marshal d') in
      let behind : All (IsBehind db d') (db.entries s1) = rw es1 (
        All-insert (IsBehind db d') d'.id (db.marshal d') (db.entries s)
          (d', db.unmarshal-marshal d', refl, inl refl) (weaken db d' (db.entries s) before)) in
      let there : find_entry (db.entries s1) d'.id ≡ some (db.marshal d') =
        ap (λ es. find_entry es d'.id) es1
        ∙ find-insert d'.id d'.id (db.marshal d') (db.entries s)
        ∙ rw ((bytes_eq_iff d'.id d'.id).1 refl) refl in
      let pruned = prune_drafts-IsPruned db s1 d' k behind there in
      let s2 = prune_drafts db s1 in
      (
        s2,
        d',
        refl,
        record {
          few = pruned.few;
          there = stored-get s2 d'.id d' pruned.kept;
          same_source = refl;
          touched = refl;
          start = stamped-start s (stored_draft db s d.id) now d refl;
          others = put_others s d' k s2 pruned.others;
        },
      )

  filled_source : (new_id : Bytes) (d : Draft) → (with_id new_id (named d)).source ≡ d.source
  unfolding with_id named
  filled_source new_id d = ground arith

  -- Saving a draft that has some source, into a bucket whose entries are drafts under their own ids, all
  -- touched before now, succeeds. It leaves at most 60 drafts. The saved draft is among them, with the
  -- source given, touched now, and started when an earlier draft of its id was, if that is known. Every
  -- other draft is as it was or gone.
  pub save_draft-IsKept :
      (s : S) (d : Draft) (new_id : Bytes) (now : ℕ) (k : Bytes)
      → All (IsDraftBefore db now) (db.entries s)
      → bytes_eq (trim_space d.source) [] ≡ false
      → (s' : S) × (d' : Draft) × (save_draft db s d new_id now ≡ saved s' d')
        × IsKept s s' now d.source k d'
  unfolding save_draft
  save_draft-IsKept s d new_id now k before some_source =
      let (s', d', e, kept) = store_draft-IsKept s (with_id new_id (named d)) now k before in
      (
        s',
        d',
        rw (some_source, save_draft) e,
        record {
          few = kept.few;
          there = kept.there;
          same_source = kept.same_source ∙ filled_source new_id d;
          touched = kept.touched;
          start = kept.start;
          others = kept.others;
        },
      )
