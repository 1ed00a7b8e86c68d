-- ===== src/Store/Config/Revisions.antt =====
-- What any changes of the configuration leave in the store (store/store.go).
use deadlocker.Base.{ℕ, ◌^◌, ◌<◌, none, some, List, [], ◌∷◌, ◌++◌, Bytes}
use deadlocker.Store.Config.{Config, Database, normalise, save, restore, Saved, saved, rejected}
use deadlocker.Store.Config.Versions.{nth_version}

-- A change of the configuration.
pub data StoreCall : Type 0 where
  saves : Config → Bytes → ℕ → StoreCall
  restores : ℕ → ℕ → StoreCall

-- The number of a version is a `uint64`.
abbrev pub HasVersion : StoreCall → Type 0
HasVersion (saves c note now) = Unit
HasVersion (restores n now) = n < 2 ^ 64

-- What the changes make of a list of revisions.
abbrev pub revise : List Config → StoreCall → List Config
revise cs (saves c note now) = cs ++ (normalise c ∷ [])
revise cs (restores n now) = elim (nth_version cs n) [ none ↦ cs | some c ↦ cs ++ (c ∷ []) ]

abbrev pub revisions : List Config → List StoreCall → List Config
revisions cs [] = cs
revisions cs (x ∷ xs) = revisions (revise cs x) xs

module _ {S P : Type 0} (db : Database S P) where
  -- A change of the configuration; a refused one leaves the database.
  abbrev pub after_saved : S → Saved S → S
  after_saved s (rejected e) = s
  after_saved s (saved s' v) = s'

  abbrev pub store_call : S → StoreCall → S
  store_call s (saves c note now) = after_saved s (save db s c note now)
  store_call s (restores n now) = after_saved s (restore db s n now)

  abbrev pub store_calls : S → List StoreCall → S
  store_calls s [] = s
  store_calls s (x ∷ xs) = store_calls (store_call s x) xs
