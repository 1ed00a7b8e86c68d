-- ===== src/Agentapi/Locks/Sound.antt =====
-- Loops in the wait graph that the search reports (agentapi/api.go).
use deadlocker.Base.{
  ℕ, zero, suc, ◌+◌, length, ◌≢◌, ◌≡◌, refl, sym, ap, true, List, [], ◌∷◌, Bytes, bytes_eq,
  bytes_eq_iff, Bool-cases, inl, inr, ◌⊎◌, arith,
}
use deadlocker.Casedef.Validate.{is_seen}
use deadlocker.Agentapi.Locks.{
  Edges, edges_of, Mark, unseen, on_path, finished, Search, set_mark, for_each, visit, keys,
  search_all, has_cycle,
}

abbrev pub IsEdge : Edges → Bytes → Bytes → Type 0
IsEdge edges n m = is_seen (edges_of edges n) m ≡ true

-- A walk of one edge or more.
pub data Reaches (edges : Edges) : Bytes → Bytes → Type 0 where
  one : {n m : Bytes} → IsEdge edges n m → Reaches edges n m
  more : {n m k : Bytes} → IsEdge edges n m → Reaches edges m k → Reaches edges n k

abbrev pub HasLoop : Edges → Type 0
HasLoop edges = (n : Bytes) × Reaches edges n n

Mark-cases : (v : Mark) → (v ≡ unseen) ⊎ ((v ≡ on_path) ⊎ (v ≡ finished))
Mark-cases unseen = inl refl
Mark-cases on_path = inr (inl refl)
Mark-cases finished = inr (inr refl)

pub visit-zero : (edges : Edges) (n : Bytes) (s : Search) → visit edges zero n s ≡ s
unfolding visit
visit-zero edges n s = refl

-- What a visit does: nothing, a loop, or a search of what the actor waits for.
pub visit-cases :
    (edges : Edges) (fuel : ℕ) (n : Bytes) (s : Search)
    → (((s.found ≡ true) ⊎ (s.state n ≡ finished)) × (visit edges (suc fuel) n s ≡ s))
      ⊎ ((s.state n ≡ on_path) × (visit edges (suc fuel) n s ≡ record s { found = true }))
      ⊎ ((s.state n ≡ unseen)
          × (visit edges (suc fuel) n s
              ≡ set_mark n finished
                  (for_each (visit edges fuel) (edges_of edges n) (set_mark n on_path s))))
unfolding visit
visit-cases edges fuel n s = elim (Bool-cases s.found) [
  | inl found ↦ inl (inl found, rw (found, visit) (ap (λ b. record s { found = b }) found))
  | inr not_yet ↦ elim (Mark-cases (s.state n)) [
    | inr (inr seen) ↦
        inl (inr seen, rw (not_yet, seen, visit) (ap (λ b. record s { found = b }) not_yet))
    | inr (inl again) ↦ inr (inl (again, rw (not_yet, again, visit) refl))
    | inl new ↦ inr (
        inr (
          new,
          rw (not_yet, new, visit)
              (ap
                (λ b. set_mark n finished (
                  for_each (visit edges fuel) (edges_of edges n)
                    (set_mark n on_path (record s { found = b }))))
                not_yet),
        ))
  ]
]

module _ (edges : Edges) where
  walk_on : {n m k : Bytes} → Reaches edges n m → IsEdge edges m k → Reaches edges n k
  walk_on (one e) e' = more e (one e')
  walk_on (more e w) e' = more e (walk_on w e')

  -- Every actor on the path reaches this one.
  abbrev AllReach : Search → Bytes → Type 0
  AllReach s n = (k : Bytes) → s.state k ≡ on_path → Reaches edges k n

  -- After a part of the search: what was found is a loop, and the path is no larger.
  record IsHonest (s s' : Search) : Type 0 where
    pub loop : s'.found ≡ true → HasLoop edges
    pub smaller : (k : Bytes) → s'.state k ≡ on_path → s.state k ≡ on_path

  for_each-IsHonest :
      (fuel : ℕ) (n : Bytes) (ms : List Bytes) (s : Search)
      → ((m : Bytes) (s : Search)
          → (s.found ≡ true → HasLoop edges)
          → AllReach s m
          → IsHonest s (visit edges fuel m s))
      → (s.found ≡ true → HasLoop edges)
      → ((m : Bytes) → is_seen ms m ≡ true → IsEdge edges n m)
      → ((k : Bytes) → s.state k ≡ on_path → (k ≡ n) ⊎ Reaches edges k n)
      → IsHonest s (for_each (visit edges fuel) ms s)
  unfolding for_each is_seen
  for_each-IsHonest fuel n [] s step loop edge path = record { loop = loop; smaller = λ k h. h }
  for_each-IsHonest fuel n (m ∷ ms) s step loop edge path =
      let e : IsEdge edges n m = edge m (ground (arith, bytes_eq_iff m m)) in
      let first =
        step m s loop
          (λ k h. elim (path k h) [ inl same ↦ rw same (one e) | inr w ↦ walk_on w e ]) in
      let rest =
        for_each-IsHonest fuel n ms (visit edges fuel m s) step first.loop
          (λ m' h. edge m' (ground arith)) (λ k h. path k (first.smaller k h)) in
      record { loop = rest.loop; smaller = λ k h. first.smaller k (rest.smaller k h) }

  visit-IsHonest :
      (fuel : ℕ) (n : Bytes) (s : Search)
      → (s.found ≡ true → HasLoop edges)
      → AllReach s n
      → IsHonest s (visit edges fuel n s)
  unfolding set_mark
  visit-IsHonest zero n s loop path =
      rw (visit-zero edges n s) (record { loop = loop; smaller = λ k h. h })
  visit-IsHonest (suc fuel) n s loop path = elim (visit-cases edges fuel n s) [
    | inl (_, same) ↦ rw same (record { loop = loop; smaller = λ k h. h })
    | inr (inl (again, e)) ↦ rw e (record { loop = λ _. (n, path n again); smaller = λ k h. h })
    | inr (inr (new, e)) ↦ rw e (
        let h =
          for_each-IsHonest fuel n (edges_of edges n) (set_mark n on_path s) (visit-IsHonest fuel)
            loop (λ m e. e)
            (λ k h. elim (Bool-cases (bytes_eq n k)) [
              | inl same ↦ inl (sym ((bytes_eq_iff n k).0 same))
              | inr differ ↦ inr (path k (ground (arith, differ, h)))
            ]) in
        record {
          loop = h.loop;
          smaller = λ k p. elim (Bool-cases (bytes_eq n k)) [
            | inl same ↦ absurd (ground (arith, same, p))
            | inr differ ↦ ground (arith, differ, p, h.smaller k)
          ];
        })
  ]

  search_all-IsHonest :
      (fuel : ℕ) (ns : List Bytes) (s : Search)
      → (s.found ≡ true → HasLoop edges)
      → ((k : Bytes) → s.state k ≢ on_path)
      → (for_each (visit edges fuel) ns s).found ≡ true
      → HasLoop edges
  unfolding for_each
  search_all-IsHonest fuel [] s loop off found = loop found
  search_all-IsHonest fuel (n ∷ ns) s loop off found =
      let h = visit-IsHonest fuel n s loop (λ k p. absurd (off k p)) in
      search_all-IsHonest fuel ns (visit edges fuel n s) h.loop (λ k p. off k (h.smaller k p)) found

  -- A loop that is reported is there.
  pub loop_of_found : has_cycle edges ≡ true → HasLoop edges
  unfolding has_cycle search_all
  loop_of_found found =
      search_all-IsHonest (length edges + 1) (keys edges) _ (λ h. absurd (ground arith))
        (λ k h. ground arith) found
