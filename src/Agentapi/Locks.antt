-- ===== src/Agentapi/Locks.antt =====
-- What an agent is shown of the locks, and whether the wait graph has a loop (agentapi/api.go).
pub mod Sound
pub mod Settled
pub mod Complete
pub mod Waits
use deadlocker.Base.{
  ℕ, zero, suc, ◌+◌, ltb, Bool, true, false, not, ◌&&◌, Option, none, some, List, [], ◌∷◌, ◌++◌,
  Bytes, length, map, bytes_eq, str, text_before, sort_by, if◌then◌else◌,
}
use deadlocker.Engine.Types.{Lock, LockWait, LockSnapshot}

pub record LockLine : Type 0 where
  pub actor : Bytes
  pub table : Bytes
  pub index : Bytes
  pub mode : Bytes
  pub status : Bytes
  pub data_of : Bytes
  pub explain : Bytes

pub record WaitLine : Type 0 where
  pub waiting : Bytes
  pub blocking : Bytes
  pub detail : Bytes

pub record LockView : Type 0 where
  pub locks : List LockLine
  pub waits : List WaitLine
  pub cycle : Bool

unfoldable pub empty_dash : Bytes → Bytes
empty_dash s = if bytes_eq s [] then str "—" else s

unfoldable pub lock_line : Lock → LockLine
lock_line l = record {
  actor = l.actor;
  table = l.table;
  index = l.index;
  mode = l.lock_mode;
  status = l.lock_status;
  data_of = l.lock_data;
  explain = l.explain;
}

unfoldable pub wait_detail : Option Lock → Option Lock → Bytes
wait_detail (some wanted) (some held) =
    str "requesting "
    ++ wanted.lock_mode
    ++ str ", blocked by "
    ++ held.lock_mode
    ++ str " on "
    ++ empty_dash held.lock_data
wait_detail _ _ = []

unfoldable pub wait_line : LockWait → WaitLine
wait_line w = record {
  waiting = w.waiting_actor;
  blocking = w.blocking_actor;
  detail = wait_detail w.waiting_lock w.blocking_lock;
}

-- The map from an actor to those it waits for.
abbrev pub Edges : Type 0
Edges = List (Bytes × List Bytes)

unfoldable pub edges_of : Edges → Bytes → List Bytes
edges_of [] n = []
edges_of ((k, ms) ∷ rest) n = if bytes_eq k n then ms else edges_of rest n

unfoldable pub add_edge : Edges → Bytes → Bytes → Edges
add_edge [] n m = (n, m ∷ []) ∷ []
add_edge ((k, ms) ∷ rest) n m =
    let later = add_edge rest n m in
    if bytes_eq k n then (k, ms ++ (m ∷ [])) ∷ rest else (k, ms) ∷ later

unfoldable pub wait_edges : Edges → List LockWait → Edges
wait_edges edges [] = edges
wait_edges edges (w ∷ ws) =
    wait_edges
      (if not (bytes_eq w.waiting_actor []) && not (bytes_eq w.blocking_actor [])
        then add_edge edges w.waiting_actor w.blocking_actor
        else edges)
      ws

-- `unseen` is the zero of the map `state`.
pub data Mark : Type 0 where
  unseen on_path finished : Mark

-- What the closure `visit` changes.
pub record Search : Type 0 where
  pub state : Bytes → Mark
  pub found : Bool

unfoldable pub set_mark : Bytes → Mark → Search → Search
set_mark n v s = record s { state = λ k. if bytes_eq n k then v else s.state k }

unfoldable pub for_each {ℓ} : {A : Type ℓ} → (A → Search → Search) → List A → Search → Search
for_each f [] s = s
for_each f (x ∷ xs) s = for_each f xs (f x s)

-- The fuel bounds the depth of the recursion.
unfoldable pub visit : Edges → ℕ → Bytes → Search → Search
visit edges zero n s = s
visit edges (suc fuel) n s = elim s.found [
  | true ↦ s
  | false ↦ elim (s.state n) [
    | finished ↦ s
    | on_path ↦ record s { found = true }
    | unseen ↦
        set_mark n finished (for_each (visit edges fuel) (edges_of edges n) (set_mark n on_path s))
  ]
]

unfoldable pub keys : Edges → List Bytes
keys edges = sort_by text_before (map (λ e. e.0) edges)

unfoldable pub search_all : Edges → Search
search_all edges =
    for_each (visit edges (length edges + 1)) (keys edges)
      (record { state = λ _. unseen; found = false })

unfoldable pub has_cycle : Edges → Bool
has_cycle edges = (search_all edges).found

unfoldable pub lock_view : LockSnapshot → LockView
lock_view snap = record {
  locks = map lock_line snap.locks;
  waits = map wait_line snap.waits;
  cycle = has_cycle (wait_edges [] snap.waits);
}
