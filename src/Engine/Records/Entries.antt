-- ===== src/Engine/Records/Entries.antt =====
-- The list of the records and the keys of the map beside it (engine/history.go).
use deadlocker.Base.{
  ◌≤◌, ◌≡◌, inl, inr, refl, true, false, ◌||◌, none, some, List, [], ◌∷◌, ◌++◌, length, Bytes,
  bytes_eq, bytes_eq_iff, map, if◌then◌else◌, arith, Bool-cases,
}
use deadlocker.Engine.Records.{Record, has_key, delete_key, find_record, overwrite, remove_record}

-- No run has two records.
abbrev pub IsUnique : List Bytes → Type 0
IsUnique [] = Unit
IsUnique (k ∷ ks) = (has_key ks k ≡ false) × IsUnique ks

abbrev pub ids : List Record → List Bytes
ids rs = map (λ r. r.run_id) rs

pub bytes_eq_self : (k : Bytes) → bytes_eq k k ≡ true
bytes_eq_self k = (bytes_eq_iff k k).1 refl

pub find-has_key :
    (rs : List Record) (k : Bytes) → has_key (ids rs) k ≡ false → find_record rs k ≡ none
unfolding has_key find_record
find-has_key [] k h = refl
find-has_key (r ∷ rs) k h = ground (arith, find-has_key rs k)

pub ids-overwrite : (rs : List Record) (rec : Record) → ids (overwrite rs rec) ≡ ids rs
unfolding overwrite
ids-overwrite [] rec = refl
ids-overwrite (r ∷ rs) rec = ground (arith, ids-overwrite rs rec, bytes_eq_iff r.run_id rec.run_id)

pub length-overwrite : (rs : List Record) (rec : Record) → length (overwrite rs rec) ≡ length rs
unfolding overwrite
length-overwrite [] rec = refl
length-overwrite (r ∷ rs) rec = ground (arith, length-overwrite rs rec)

pub find-overwrite :
    (rs : List Record) (rec : Record) (k : Bytes)
    → has_key (ids rs) rec.run_id ≡ true
    → find_record (overwrite rs rec) k
      ≡ (if bytes_eq rec.run_id k then some rec else find_record rs k)
unfolding has_key find_record overwrite
find-overwrite [] rec k h = absurd (ground arith)
find-overwrite (r ∷ rs) rec k h = ground (
  arith,
  find-overwrite rs rec k,
  bytes_eq_iff r.run_id rec.run_id,
  bytes_eq_iff r.run_id k,
  bytes_eq_iff rec.run_id k,
)

pub find-append :
    (rs : List Record) (rec : Record) (k : Bytes)
    → has_key (ids rs) rec.run_id ≡ false
    → find_record (rs ++ (rec ∷ [])) k
      ≡ (if bytes_eq rec.run_id k then some rec else find_record rs k)
unfolding has_key find_record
find-append [] rec k h = refl
find-append (r ∷ rs) rec k h = ground (
  arith,
  find-append rs rec k,
  bytes_eq_iff r.run_id rec.run_id,
  bytes_eq_iff r.run_id k,
  bytes_eq_iff rec.run_id k,
)

pub has_key-append :
    (ks : List Bytes) (x k : Bytes) → has_key (ks ++ (x ∷ [])) k ≡ (has_key ks k || bytes_eq x k)
unfolding has_key
has_key-append [] x k = ground arith
has_key-append (y ∷ ys) x k = ground (arith, has_key-append ys x k)

pub IsUnique-append :
    (ks : List Bytes) (x : Bytes) → IsUnique ks → has_key ks x ≡ false → IsUnique (ks ++ (x ∷ []))
unfolding has_key
IsUnique-append [] x u h = (refl, tt)
IsUnique-append (y ∷ ys) x (hy, u) h = (
  ground (arith, has_key-append ys x y, bytes_eq_iff x y, bytes_eq_iff y x),
  IsUnique-append ys x u (ground arith),
)

pub ids-append :
    (rs : List Record) (rec : Record) → ids (rs ++ (rec ∷ [])) ≡ ids rs ++ (rec.run_id ∷ [])
ids-append [] rec = refl
ids-append (r ∷ rs) rec = rw (ids-append rs rec)

pub delete_key-absent : (ks : List Bytes) (k : Bytes) → has_key ks k ≡ false → delete_key ks k ≡ ks
unfolding has_key delete_key
delete_key-absent [] k h = refl
delete_key-absent (x ∷ xs) k h = ground (arith, delete_key-absent xs k)

pub ids-remove :
    (rs : List Record) (k : Bytes)
    → IsUnique (ids rs)
    → ids (remove_record rs k) ≡ delete_key (ids rs) k
unfolding remove_record delete_key
ids-remove [] k u = refl
ids-remove (r ∷ rs) k (fresh, u) =
    ground (arith, ids-remove rs k u, bytes_eq_iff r.run_id k, delete_key-absent (ids rs) k)

pub has_key-delete :
    (ks : List Bytes) (k j : Bytes)
    → has_key (delete_key ks k) j ≡ (if bytes_eq k j then false else has_key ks j)
unfolding has_key delete_key
has_key-delete [] k j = ground arith
has_key-delete (x ∷ xs) k j =
    ground (arith, has_key-delete xs k j, bytes_eq_iff x k, bytes_eq_iff x j, bytes_eq_iff k j)

pub IsUnique-delete : (ks : List Bytes) (k : Bytes) → IsUnique ks → IsUnique (delete_key ks k)
unfolding delete_key
IsUnique-delete [] k u = tt
IsUnique-delete (x ∷ xs) k (h, u) = elim (Bool-cases (bytes_eq x k)) [
  | inl same ↦ rw same (IsUnique-delete xs k u)
  | inr other ↦ rw other (ground (arith, has_key-delete xs k x), IsUnique-delete xs k u)
]

pub length-remove_le : (rs : List Record) (k : Bytes) → length (remove_record rs k) ≤ length rs
unfolding remove_record
length-remove_le [] k = omega arith
length-remove_le (r ∷ rs) k = ground (arith, length-remove_le rs k)

pub find-remove :
    (rs : List Record) (id k : Bytes)
    → IsUnique (ids rs)
    → find_record (remove_record rs id) k ≡ (if bytes_eq id k then none else find_record rs k)
unfolding find_record remove_record
find-remove [] id k u = ground arith
find-remove (r ∷ rs) id k (fresh, u) = ground (
  arith,
  find-remove rs id k u,
  find-has_key rs k,
  bytes_eq_iff r.run_id id,
  bytes_eq_iff r.run_id k,
  bytes_eq_iff id k,
)
