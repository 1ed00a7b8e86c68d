-- ===== src/Agentapi/Locks/Waits.antt =====
-- The loop flag against the waits of a snapshot (agentapi/api.go).
use deadlocker.Base.{
  ◌≡◌, ◌↔◌, sym, ◌∙◌, Bool, true, false, not, ◌&&◌, ◌||◌, List, [], ◌∷◌, ◌++◌, Bytes, bytes_eq,
  bytes_eq_iff, arith,
}
use deadlocker.Casedef.Validate.{is_seen}
use deadlocker.Engine.Types.{LockWait, LockSnapshot}
use deadlocker.Agentapi.Locks.{Edges, edges_of, add_edge, wait_edges, lock_view}
use deadlocker.Agentapi.Locks.Sound.{Reaches, one, more}
use deadlocker.Agentapi.Locks.Complete.{has_cycle_iff}

-- Whether one of the waits is of the first actor for the second, both known.
abbrev pub is_wait : Bytes → Bytes → LockWait → Bool
is_wait n m w =
    not (bytes_eq w.waiting_actor [])
    && not (bytes_eq w.blocking_actor [])
    && bytes_eq w.waiting_actor n
    && bytes_eq w.blocking_actor m

abbrev pub waits_for : List LockWait → Bytes → Bytes → Bool
waits_for [] n m = false
waits_for (w ∷ ws) n m = is_wait n m w || waits_for ws n m

-- A chain of one wait or more.
pub data WaitChain (ws : List LockWait) : Bytes → Bytes → Type 0 where
  last : {n m : Bytes} → waits_for ws n m ≡ true → WaitChain ws n m
  next : {n m k : Bytes} → waits_for ws n m ≡ true → WaitChain ws m k → WaitChain ws n k

seen-append :
    (xs : List Bytes) (m k : Bytes) → is_seen (xs ++ (m ∷ [])) k ≡ (is_seen xs k || bytes_eq m k)
unfolding is_seen
seen-append [] m k = ground arith
seen-append (x ∷ xs) m k = ground (arith, seen-append xs m k)

edges_of-add_edge :
    (edges : Edges) (a b n m : Bytes)
    → is_seen (edges_of (add_edge edges a b) n) m
      ≡ (is_seen (edges_of edges n) m || (bytes_eq a n && bytes_eq b m))
unfolding edges_of add_edge is_seen
edges_of-add_edge [] a b n m = ground arith
edges_of-add_edge ((k, ms) ∷ rest) a b n m = ground (
  arith,
  edges_of-add_edge rest a b n m,
  seen-append ms b m,
  bytes_eq_iff k a,
  bytes_eq_iff k n,
  bytes_eq_iff a n,
)

edges_of-wait_edges :
    (edges : Edges) (ws : List LockWait) (n m : Bytes)
    → is_seen (edges_of (wait_edges edges ws) n) m
      ≡ (is_seen (edges_of edges n) m || waits_for ws n m)
unfolding wait_edges
edges_of-wait_edges edges [] n m = ground arith
edges_of-wait_edges edges (w ∷ ws) n m = ground (
  arith,
  edges_of-wait_edges edges ws n m,
  edges_of-wait_edges (add_edge edges w.waiting_actor w.blocking_actor) ws n m,
  edges_of-add_edge edges w.waiting_actor w.blocking_actor n m,
)

edge_iff :
    (ws : List LockWait) (n m : Bytes)
    → is_seen (edges_of (wait_edges [] ws) n) m ≡ waits_for ws n m
unfolding edges_of is_seen
edge_iff ws n m = edges_of-wait_edges [] ws n m

chain_of : (ws : List LockWait) {n m : Bytes} → Reaches (wait_edges [] ws) n m → WaitChain ws n m
chain_of ws (one {n = a} {m = b} e) = last (sym (edge_iff ws a b) ∙ e)
chain_of ws (more {n = a} {m = b} e w) = next (sym (edge_iff ws a b) ∙ e) (chain_of ws w)

walk_of : (ws : List LockWait) {n m : Bytes} → WaitChain ws n m → Reaches (wait_edges [] ws) n m
walk_of ws (last {n = a} {m = b} e) = one (edge_iff ws a b ∙ e)
walk_of ws (next {n = a} {m = b} e w) = more (edge_iff ws a b ∙ e) (walk_of ws w)

-- The loop flag of the lock view is set exactly when some actor waits, by a chain of one or more of the
-- snapshot's waits whose two actors are known, for itself.
pub lock_view-cycle :
    (snap : LockSnapshot)
    → ((lock_view snap).cycle ≡ true) ↔ ((n : Bytes) × WaitChain snap.waits n n)
unfolding lock_view
lock_view-cycle snap =
    let (there, back) = has_cycle_iff (wait_edges [] snap.waits) in
    (
      λ h. let (n, w) = there h in (n, chain_of snap.waits w),
      λ (n, w). back (n, walk_of snap.waits w),
    )
