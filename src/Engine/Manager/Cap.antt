-- ===== src/Engine/Manager/Cap.antt =====
-- The map and the order of the open runs, and their number (engine/manager.go).
use deadlocker.Base.{
  ℕ, ◌≤◌, leb, ◌≡◌, ◌⊎◌, refl, sym, ap, ◌∙◌, Bool, true, false, none, some, Option-cases, List, [],
  ◌∷◌, ◌++◌, Bytes, length, bytes_eq, bytes_eq_iff, length-append, if◌then◌else◌, arith, Bool-cases,
  inl, inr,
}
use deadlocker.Casedef.Types.{Case}
use deadlocker.Engine.Records.{RunInfo, has_key}
use deadlocker.Engine.Records.Entries.{IsUnique, has_key-append, IsUnique-append}
use deadlocker.Engine.Run.{new_run}
use deadlocker.Engine.Manager.{
  OpenRun, Manager, max_runs, new_manager, find_run, delete_run, remove_first, keep_record, retire,
  evict_oldest, evict_if_needed, register, start_async, closed_run, close_found, close_run,
}

abbrev pub is_open : List OpenRun → Bytes → Bool
is_open rs k = elim (find_run rs k) [ none ↦ false | some r ↦ true ]

-- The map has the ids of the order, none of them twice, and at most ten.
pub record IsCapped (m : Manager) : Type 0 where
  pub same : (k : Bytes) → is_open m.runs k ≡ has_key m.order k
  pub unique : IsUnique m.order
  pub capped : length m.order ≤ 10

find-delete :
    (rs : List OpenRun) (k j : Bytes)
    → find_run (delete_run rs k) j ≡ (if bytes_eq k j then none else find_run rs j)
unfolding find_run delete_run
find-delete [] k j = ground arith
find-delete (r ∷ rs) k j = ground (
  arith,
  find-delete rs k j,
  bytes_eq_iff r.info.id k,
  bytes_eq_iff r.info.id j,
  bytes_eq_iff k j,
)

has_key-remove :
    (ks : List Bytes) (k j : Bytes)
    → IsUnique ks
    → has_key (remove_first ks k) j ≡ (if bytes_eq k j then false else has_key ks j)
unfolding has_key remove_first
has_key-remove [] k j u = ground arith
has_key-remove (x ∷ xs) k j (new, u) =
    ground (arith, has_key-remove xs k j u, bytes_eq_iff x k, bytes_eq_iff x j, bytes_eq_iff k j)

IsUnique-remove : (ks : List Bytes) (k : Bytes) → IsUnique ks → IsUnique (remove_first ks k)
unfolding remove_first
IsUnique-remove [] k u = tt
IsUnique-remove (x ∷ xs) k (new, u) = elim (Bool-cases (bytes_eq x k)) [
  | inl same ↦ rw same u
  | inr other ↦ rw other (ground (arith, has_key-remove xs k x u), IsUnique-remove xs k u)
]

length-remove_first : (ks : List Bytes) (k : Bytes) → length (remove_first ks k) ≤ length ks
unfolding remove_first
length-remove_first [] k = omega arith
length-remove_first (x ∷ xs) k = ground (arith, length-remove_first xs k)

remove_first_head : (k : Bytes) (ks : List Bytes) → remove_first (k ∷ ks) k ≡ ks
unfolding remove_first
remove_first_head k ks = ground (arith, bytes_eq_iff k k)

-- An id that is taken out of both.
removed-IsCapped :
    (m m' : Manager) (id : Bytes)
    → IsCapped m
    → m'.runs ≡ delete_run m.runs id
    → m'.order ≡ remove_first m.order id
    → IsCapped m'
removed-IsCapped m m' id v runs order = record {
  same = λ k.
      rw (runs, order)
        (ground (arith, find-delete m.runs id k, has_key-remove m.order id k v.unique, v.same k));
  unique = rw order (IsUnique-remove m.order id v.unique);
  capped = rw order (omega (arith, v.capped, length-remove_first m.order id));
}

-- The eviction leaves room, and takes at most the oldest run.
evict-IsCapped :
    (m : Manager) (now : ℕ) (order : List Bytes)
    → m.order ≡ order
    → IsCapped m
    → IsCapped (evict_if_needed m now).0
      × (length (evict_if_needed m now).0.order ≤ 9)
      × ((k : Bytes) → has_key order k ≡ false → has_key (evict_if_needed m now).0.order k ≡ false)
unfolding evict_if_needed evict_oldest retire keep_record has_key
evict-IsCapped m now [] e v = ground (arith, v)
evict-IsCapped m now (oldest ∷ rest) e v = elim (Bool-cases (leb max_runs (length m.order))) [
  | inl full ↦
      let m' = (evict_if_needed m now).0 in
      let runs : m'.runs ≡ delete_run m.runs oldest = ground arith in
      let order : m'.order ≡ rest = ground arith in
      let removed : m'.order ≡ remove_first m.order oldest =
        order ∙ sym (ap (λ ks. remove_first ks oldest) e ∙ remove_first_head oldest rest) in
      (removed-IsCapped m m' oldest v runs removed, ground (arith, v.capped), λ k h. ground arith)
  | inr room ↦ rw room (v, ground arith, λ k h. ground arith)
]

registered-IsCapped :
    (m m' : Manager) (r : OpenRun)
    → IsCapped m
    → length m.order ≤ 9
    → has_key m.order r.info.id ≡ false
    → m'.runs ≡ r ∷ delete_run m.runs r.info.id
    → m'.order ≡ m.order ++ (r.info.id ∷ [])
    → IsCapped m'
unfolding find_run
registered-IsCapped m m' r v room new runs order = record {
  same = λ k.
      rw (runs, order)
        (ground (
          arith,
          find-delete m.runs r.info.id k,
          has_key-append m.order r.info.id k,
          v.same k,
          bytes_eq_iff r.info.id k,
        ));
  unique = rw order (IsUnique-append m.order r.info.id v.unique new);
  capped = rw order (omega (arith, length-append m.order (r.info.id ∷ [])));
}

pub start_async-IsCapped :
    (m : Manager) (c : Case) (info : RunInfo) (now : ℕ)
    → IsCapped m
    → has_key m.order info.id ≡ false
    → IsCapped (start_async m c info now).0
      × (find_run (start_async m c info now).0.runs info.id
          ≡ some (record { run = new_run c; info = info }))
unfolding start_async register keep_record find_run
start_async-IsCapped m c info now v new =
    let r : OpenRun = record { run = new_run c; info = info } in
    let (kept, room, still) = evict-IsCapped m now m.order refl v in
    let m' = (evict_if_needed m now).0 in
    (
      registered-IsCapped m' (start_async m c info now).0 r kept room (still info.id new) refl refl,
      ground (arith, bytes_eq_iff info.id info.id),
    )

-- Closing a run of a manager whose runs are capped: an id without an open run is refused; else the
-- run is no longer found, every other run is, and the runs are capped.
pub close_run-IsCapped :
    (m : Manager) (id : Bytes) (now : ℕ)
    → IsCapped m
    → ((is_open m.runs id ≡ false) × (close_run m id now ≡ none))
      ⊎ ((m' : Manager) × (r : OpenRun) × (close_run m id now ≡ some (m', some r))
          × IsCapped m'
          × ((k : Bytes)
              → find_run m'.runs k ≡ (if bytes_eq id k then none else find_run m.runs k)))
unfolding close_run close_found retire keep_record
close_run-IsCapped m id now v = elim (Option-cases (find_run m.runs id)) [
  | inl missing ↦ inl (ground arith, ground arith)
  | inr (r, found) ↦
      let out : Manager = record m {
        runs = delete_run m.runs id;
        order = remove_first m.order id;
      } in
      inr (
        (keep_record out r now),
        closed_run r,
        ground arith,
        removed-IsCapped m (keep_record out r now) id v refl refl,
        λ k. find-delete m.runs id k,
      )
]

pub new_manager-IsCapped : IsCapped new_manager
unfolding new_manager find_run has_key
new_manager-IsCapped = record { same = λ k. refl; unique = tt; capped = omega arith }
