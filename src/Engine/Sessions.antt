-- ===== src/Engine/Sessions.antt =====
-- The sessions of a run by their ids (engine/run.go, the maps `actors` and `consoles`).
use deadlocker.Base.{
  Bool, false, ◌||◌, Option, none, some, List, [], ◌∷◌, Bytes, bytes_eq, bytes_eq_iff, ◌≡◌, arith,
  if◌then◌else◌,
}
use deadlocker.Engine.Types.{Session}

unfoldable pub find_session : List Session → Bytes → Option Session
find_session [] k = none
find_session (s ∷ ss) k = if bytes_eq s.id k then some s else find_session ss k

-- A change of the session with this id, through the pointer that the map holds.
unfoldable pub modify_session : (Session → Session) → List Session → Bytes → List Session
modify_session f [] k = []
modify_session f (s ∷ ss) k =
    let rest = modify_session f ss k in if bytes_eq s.id k then f s ∷ ss else s ∷ rest

unfoldable pub remove_session : List Session → Bytes → List Session
remove_session [] k = []
remove_session (s ∷ ss) k =
    let rest = remove_session ss k in if bytes_eq s.id k then ss else s ∷ rest

-- `anyBusyLocked`.
unfoldable pub any_busy : List Session → Bool
any_busy [] = false
any_busy (s ∷ ss) = s.busy || any_busy ss

unfoldable pub map_option {ℓ κ} : {A : Type ℓ} {B : Type κ} → (A → B) → Option A → Option B
map_option f none = none
map_option f (some a) = some (f a)

module _ (f : Session → Session) (keeps : (s : Session) → (f s).id ≡ s.id) where
  -- Only the session with the id is changed.
  pub find-modify :
      (ss : List Session) (k j : Bytes)
      → find_session (modify_session f ss k) j
        ≡ (if bytes_eq k j then map_option f (find_session ss j) else find_session ss j)
  unfolding find_session modify_session map_option
  find-modify [] k j = ground arith
  find-modify (s ∷ ss) k j = ground (
    arith,
    keeps s,
    find-modify ss k j,
    bytes_eq_iff s.id k,
    bytes_eq_iff s.id j,
    bytes_eq_iff k j,
  )

pub find_session-id :
    (ss : List Session) (k : Bytes) (s : Session) → find_session ss k ≡ some s → s.id ≡ k
unfolding find_session
find_session-id [] k s h = cc
find_session-id (x ∷ xs) k s h = ground (arith, bytes_eq_iff x.id k, find_session-id xs k s)
