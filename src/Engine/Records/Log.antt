-- ===== src/Engine/Records/Log.antt =====
-- Lookups in the log of past runs (engine/history.go).
use deadlocker.Base.{
  ◌≤◌, ◌≡◌, inl, inr, refl, sym, ap, ◌∙◌, none, List, [], ◌∷◌, ◌++◌, length, ltb, Bytes, bytes_eq,
  bytes_eq_iff, length-append, if◌then◌else◌, arith, Bool-cases,
}
use deadlocker.Engine.Records.{
  Record, History, new_history, has_key, delete_key, find_record, evict, put, forget, clear, get,
}
use deadlocker.Engine.Records.Entries.{
  IsUnique, ids, find-has_key, ids-overwrite, length-overwrite, IsUnique-append, ids-append,
  delete_key-absent, ids-remove, IsUnique-delete, length-remove_le, find-remove,
}

-- The map has the ids of the list, no run twice, and at most 500 of them.
pub record IsConsistent (h : History) : Type 0 where
  pub keys : h.by_id ≡ ids h.records
  pub unique : IsUnique h.by_id
  pub bounded : length h.records ≤ 500

pub new_history-IsConsistent : IsConsistent new_history
unfolding new_history
new_history-IsConsistent = record { keys = refl; unique = tt; bounded = omega arith }

-- The oldest record goes with its key.
evict-IsConsistent :
    (rs : List Record) (ks : List Bytes)
    → ks ≡ ids rs
    → IsUnique ks
    → length rs ≤ 501
    → IsConsistent (evict (record { records = rs; by_id = ks }))
unfolding evict delete_key
evict-IsConsistent [] ks keys unique le = record {
  keys = keys;
  unique = unique;
  bounded = omega arith;
}
evict-IsConsistent (r ∷ rs) ks keys unique le = elim (Bool-cases (ltb 500 (length (r ∷ rs)))) [
  | inl over ↦
      let (fresh, rest) = rw keys at unique in
      rw over (record {
        keys =
            rw keys
              (ground (arith, bytes_eq_iff r.run_id r.run_id, delete_key-absent (ids rs) r.run_id));
        unique = IsUnique-delete ks r.run_id unique;
        bounded = omega arith;
      })
  | inr under ↦ rw under (record { keys = keys; unique = unique; bounded = ground arith })
]

put-IsConsistent : (h : History) (rec : Record) → IsConsistent h → IsConsistent (put h rec)
unfolding put
put-IsConsistent h rec v = elim (Bool-cases (bytes_eq rec.run_id [])) [
  | inl blank ↦ rw blank v
  | inr named ↦ elim (Bool-cases (has_key h.by_id rec.run_id)) [
    | inl old ↦
        rw (named, old)
          (record {
            keys = v.keys ∙ sym (ids-overwrite h.records rec);
            unique = v.unique;
            bounded = omega (arith, v.bounded, length-overwrite h.records rec);
          })
    | inr new ↦
        rw (named, new)
          (evict-IsConsistent (h.records ++ (rec ∷ [])) (h.by_id ++ (rec.run_id ∷ []))
            (ap (λ ks. ks ++ (rec.run_id ∷ [])) v.keys ∙ sym (ids-append h.records rec))
            (IsUnique-append h.by_id rec.run_id v.unique new)
            (omega (arith, v.bounded, length-append h.records (rec ∷ []))))
  ]
]

forget-IsConsistent : (h : History) (id : Bytes) → IsConsistent h → IsConsistent (forget h id).0
unfolding forget
forget-IsConsistent h id v = elim (Bool-cases (has_key h.by_id id)) [
  | inl had ↦ rw had (record {
    keys =
        ap (λ ks. delete_key ks id) v.keys ∙ sym (ids-remove h.records id (rw v.keys at v.unique));
    unique = IsUnique-delete h.by_id id v.unique;
    bounded = omega (arith, v.bounded, length-remove_le h.records id);
  })
  | inr absent ↦ rw absent v
]

get_find : (h : History) (k : Bytes) → IsConsistent h → get h k ≡ find_record h.records k
unfolding get
get_find h k v = ground (arith, find-has_key h.records k, v.keys)

-- In a consistent log, forgetting a run drops its record and no other; the call says whether there
-- was one.
pub get-forget :
    (h : History) (id k : Bytes)
    → IsConsistent h
    → (get (forget h id).0 k ≡ (if bytes_eq id k then none else get h k))
      × ((forget h id).1 ≡ has_key h.by_id id)
unfolding forget
get-forget h id k v =
    let w : IsConsistent (forget h id).0 = forget-IsConsistent h id v in
    let before : get h k ≡ find_record h.records k = get_find h k v in
    let after : get (forget h id).0 k ≡ find_record (forget h id).0.records k =
      get_find (forget h id).0 k w in
    (
      ground (
        arith,
        find-remove h.records id k (rw v.keys at v.unique),
        find-has_key h.records k,
        v.keys,
        bytes_eq_iff id k,
      ),
      ground arith,
    )

-- A call of the log.
pub data LogCall : Type 0 where
  puts : Record → LogCall
  forgets : Bytes → LogCall
  clears : LogCall

abbrev pub log_call : History → LogCall → History
log_call h (puts rec) = put h rec
log_call h (forgets id) = (forget h id).0
log_call h clears = (clear h).0

abbrev pub log_calls : History → List LogCall → History
log_calls h [] = h
log_calls h (c ∷ cs) = log_calls (log_call h c) cs

-- After any calls on a log that is consistent, it is consistent: no run has two records, the map has
-- the ids of the list, and at most 500 records are kept.
pub log_calls-IsConsistent :
    (h : History) (cs : List LogCall) → IsConsistent h → IsConsistent (log_calls h cs)
unfolding clear
log_calls-IsConsistent h [] v = v
log_calls-IsConsistent h (puts rec ∷ cs) v =
    log_calls-IsConsistent (put h rec) cs (put-IsConsistent h rec v)
log_calls-IsConsistent h (forgets id ∷ cs) v =
    log_calls-IsConsistent (forget h id).0 cs (forget-IsConsistent h id v)
log_calls-IsConsistent h (clears ∷ cs) v =
    log_calls-IsConsistent new_history cs new_history-IsConsistent
