-- ===== src/Agentapi/Locks/Complete.antt =====
-- Loops in the wait graph, all of them found (agentapi/api.go).
use deadlocker.Base.{
  ℕ, zero, suc, ◌+◌, ◌≤◌, ◌<◌, ◌≡◌, ◌↔◌, refl, ap, ◌∙◌, true, false, List, [], ◌∷◌, Bytes, length,
  map, bytes_eq, bytes_eq_iff, Bool-cases, inl, inr, arith,
}
use deadlocker.Casedef.Validate.{is_seen}
use deadlocker.Agentapi.Locks.{
  Edges, edges_of, unseen, on_path, finished, Search, set_mark, visit, keys, search_all, has_cycle,
}
use deadlocker.Agentapi.Locks.Sound.{Reaches, one, more, HasLoop, visit-cases, loop_of_found}
use deadlocker.Agentapi.Locks.Settled.{
  count_unseen, set_mark-count, key_of_edge, seen-sort, waiting, IsSettled, IsDone, for_each-IsDone,
  enter-IsSettled, leave-IsSettled,
}

module _ (edges : Edges) where
  visited-IsDone :
      (n : Bytes) (s s1 : Search)
      → s.state n ≡ unseen
      → IsDone edges (set_mark n on_path s) s1 (edges_of edges n)
      → IsDone edges s (set_mark n finished s1) (n ∷ [])
  unfolding set_mark is_seen
  visited-IsDone n s s1 new d =
      let path : s1.state n ≡ on_path = d.grows.on_path n (ground (arith, bytes_eq_iff n n)) in
      record {
        settled = leave-IsSettled edges n s1 path d.all d.settled;
        grows = record {
          on_path = λ k h. elim (Bool-cases (bytes_eq n k)) [
            | inl same ↦ absurd (ground (arith, bytes_eq_iff n k, ap s.state {x = n} {y = k}))
            | inr differ ↦ ground (arith, differ, d.grows.on_path k (ground (arith, differ, h)))
          ];
          done = λ k h. elim (Bool-cases (bytes_eq n k)) [
            | inl same ↦ ground (arith, same)
            | inr differ ↦ ground (arith, differ, d.grows.done k (ground (arith, differ, h)))
          ];
        };
        all = λ k h. ground (arith, h);
      }

  only_one :
      (n : Bytes) (s : Search)
      → s.state n ≡ finished
      → (m : Bytes) → is_seen (n ∷ []) m ≡ true
      → s.state m ≡ finished
  unfolding is_seen
  only_one n s seen m h = ground (arith, bytes_eq_iff n m, ap s.state {x = n} {y = m})

  set_mark-found :
      (n : Bytes) (s : Search) → (set_mark n finished s).found ≡ false → s.found ≡ false
  unfolding set_mark
  set_mark-found n s h = h

  visit-IsDone :
      (fuel : ℕ) (n : Bytes) (s : Search)
      → count_unseen (waiting edges) s < fuel
      → IsSettled edges s
      → (visit edges fuel n s).found ≡ false
      → IsDone edges s (visit edges fuel n s) (n ∷ [])
  visit-IsDone zero n s enough settled = absurd (omega arith)
  visit-IsDone (suc fuel) n s enough settled = elim (visit-cases edges fuel n s) [
    | inl (inl found, e) ↦ rw e (λ clear. absurd (ground arith))
    | inl (inr seen, e) ↦ rw e (λ clear. record {
      settled = settled;
      grows = record { on_path = λ k h. h; done = λ k h. h };
      all = only_one n s seen;
    })
    | inr (inl (again, e)) ↦ rw e (λ clear. absurd (ground arith))
    | inr (inr (new, e)) ↦ rw e (λ clear. visited-IsDone n s _ new (
        for_each-IsDone edges fuel (edges_of edges n) (set_mark n on_path s) (visit-IsDone fuel)
          (λ m edge.
            omega (arith, set_mark-count (waiting edges) n s new (key_of_edge edges n m edge)))
          (enter-IsSettled edges n s new settled) (set_mark-found n _ clear)))
  ]

  key_of_loop : (n m : Bytes) → Reaches edges n m → is_seen (keys edges) n ≡ true
  unfolding keys
  key_of_loop n m (one e) = seen-sort (waiting edges) n ∙ key_of_edge edges n m e
  key_of_loop n m (more {n = a} {m = b} e w) = seen-sort (waiting edges) n ∙ key_of_edge edges n b e

  count_le_length : (ks : List Bytes) (s : Search) → count_unseen ks s ≤ length ks
  count_le_length [] s = omega arith
  count_le_length (k ∷ ks) s = ground (arith, count_le_length ks s)

  length-waiting : (es : Edges) → length (map (λ (e : Bytes × List Bytes). e.0) es) ≡ length es
  length-waiting [] = refl
  length-waiting (e ∷ es) = ap suc (length-waiting es)

  no_loop_of_clear : has_cycle edges ≡ false → ¬ HasLoop edges
  unfolding has_cycle search_all
  no_loop_of_clear clear (n, w) =
      let start : Search = record { state = λ _. unseen; found = false } in
      let fuel = length edges + 1 in
      let le = count_le_length (waiting edges) start in
      let d =
        for_each-IsDone edges fuel (keys edges) start (visit-IsDone fuel)
          (λ m h. omega (arith, le, length-waiting edges))
          (record {
            next = λ k m h e. absurd (ground arith);
            no_loop = λ k h. absurd (ground arith);
          })
          clear in
      d.settled.no_loop n (d.all n (key_of_loop n n w)) w

pub has_cycle_iff : (edges : Edges) → (has_cycle edges ≡ true) ↔ HasLoop edges
has_cycle_iff edges = (
  loop_of_found edges,
  λ loop. elim (Bool-cases (has_cycle edges)) [
    | inl found ↦ found
    | inr clear ↦ absurd (no_loop_of_clear edges clear loop)
  ],
)
