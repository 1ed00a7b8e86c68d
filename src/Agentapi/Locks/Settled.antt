-- ===== src/Agentapi/Locks/Settled.antt =====
-- The marks during the search for a loop (agentapi/api.go).
use deadlocker.Base.{
  ℕ, zero, suc, ◌+◌, ◌≤◌, ◌<◌, ◌≡◌, refl, ap, ◌∙◌, Bool, true, false, ◌||◌, List, [], ◌∷◌, Bytes,
  map, bytes_eq, bytes_eq_iff, text_before, insert_sorted, sort_by, if◌then◌else◌, Bool-cases, inl,
  inr, arith,
}
use deadlocker.Casedef.Validate.{is_seen}
use deadlocker.Agentapi.Locks.{
  Edges, edges_of, Mark, unseen, on_path, finished, Search, set_mark, for_each, visit,
}
use deadlocker.Agentapi.Locks.Sound.{IsEdge, Reaches, one, more}

abbrev pub is_unseen : Mark → Bool
is_unseen unseen = true
is_unseen _ = false

abbrev pub count_unseen : List Bytes → Search → ℕ
count_unseen [] s = 0
count_unseen (k ∷ ks) s = (if is_unseen (s.state k) then 1 else 0) + count_unseen ks s

-- The marks only go from unseen to finished, outside the path.
pub record Grows (s s' : Search) : Type 0 where
  pub on_path : (k : Bytes) → s.state k ≡ on_path → s'.state k ≡ on_path
  pub done : (k : Bytes) → s.state k ≡ finished → s'.state k ≡ finished

count_unseen-Grows :
    (ks : List Bytes) (s s' : Search) → Grows s s' → count_unseen ks s' ≤ count_unseen ks s
count_unseen-Grows [] s s' g = omega arith
count_unseen-Grows (k ∷ ks) s s' g =
    ground (arith, count_unseen-Grows ks s s' g, g.on_path k, g.done k)

set_mark-count_le :
    (ks : List Bytes) (n : Bytes) (s : Search)
    → count_unseen ks (set_mark n on_path s) ≤ count_unseen ks s
unfolding set_mark
set_mark-count_le [] n s = omega arith
set_mark-count_le (k ∷ ks) n s = ground (arith, set_mark-count_le ks n s)

pub set_mark-count :
    (ks : List Bytes) (n : Bytes) (s : Search)
    → s.state n ≡ unseen
    → is_seen ks n ≡ true
    → count_unseen ks (set_mark n on_path s) + 1 ≤ count_unseen ks s
unfolding is_seen set_mark
set_mark-count [] n s new h = absurd (ground arith)
set_mark-count (k ∷ ks) n s new h = elim (Bool-cases (bytes_eq k n)) [
  | inl same ↦
      let e : k ≡ n = (bytes_eq_iff k n).0 same in
      ground (arith, bytes_eq_iff n k, ap s.state e, e, new, set_mark-count_le ks n s)
  | inr differ ↦
      ground (arith, bytes_eq_iff n k, bytes_eq_iff k n, differ, set_mark-count ks n s new)
]

pub key_of_edge :
    (edges : Edges) (n m : Bytes)
    → IsEdge edges n m
    → is_seen (map (λ (e : Bytes × List Bytes). e.0) edges) n ≡ true
unfolding is_seen edges_of
key_of_edge [] n m h = absurd (ground arith)
key_of_edge ((k, ms) ∷ rest) n m h = ground (arith, key_of_edge rest n m)

seen-insert :
    (x : Bytes) (xs : List Bytes) (k : Bytes)
    → is_seen (insert_sorted text_before x xs) k ≡ (bytes_eq x k || is_seen xs k)
unfolding is_seen insert_sorted
seen-insert x [] k = refl
seen-insert x (y ∷ ys) k = ground (arith, seen-insert x ys k)

pub seen-sort : (xs : List Bytes) (k : Bytes) → is_seen (sort_by text_before xs) k ≡ is_seen xs k
unfolding is_seen sort_by
seen-sort [] k = refl
seen-sort (x ∷ xs) k =
    seen-insert x (sort_by text_before xs) k ∙ ap (λ b. bytes_eq x k || b) (seen-sort xs k)

visit-stays :
    (edges : Edges) (fuel : ℕ) (n : Bytes) (s : Search)
    → s.found ≡ true
    → (visit edges fuel n s).found ≡ true
unfolding visit
visit-stays edges zero n s h = h
visit-stays edges (suc fuel) n s h = rw (h, visit) h

for_each-stays :
    (edges : Edges) (fuel : ℕ) (ms : List Bytes) (s : Search)
    → s.found ≡ true
    → (for_each (visit edges fuel) ms s).found ≡ true
unfolding for_each
for_each-stays edges fuel [] s h = h
for_each-stays edges fuel (m ∷ ms) s h =
    for_each-stays edges fuel ms (visit edges fuel m s) (visit-stays edges fuel m s h)

module _ (edges : Edges) where
  abbrev pub waiting : List Bytes
  waiting = map (λ (e : Bytes × List Bytes). e.0) edges

  -- The finished actors wait for finished ones only, and none is on a loop.
  pub record IsSettled (s : Search) : Type 0 where
    pub next : (k m : Bytes) → s.state k ≡ finished → IsEdge edges k m → s.state m ≡ finished
    pub no_loop : (k : Bytes) → s.state k ≡ finished → ¬ Reaches edges k k

  pub record IsDone (s s' : Search) (ms : List Bytes) : Type 0 where
    pub settled : IsSettled s'
    pub grows : Grows s s'
    pub all : (m : Bytes) → is_seen ms m ≡ true → s'.state m ≡ finished

  reach_finished :
      (s : Search) (k m : Bytes)
      → IsSettled s
      → s.state k ≡ finished
      → Reaches edges k m
      → s.state m ≡ finished
  reach_finished s k m settled h (one e) = settled.next k m h e
  reach_finished s k m settled h (more {n = a} {m = b} e w) =
      reach_finished s b m settled (settled.next k b h e) w

  pub for_each-IsDone :
      (fuel : ℕ) (ms : List Bytes) (s : Search)
      → ((m : Bytes) (s : Search)
          → count_unseen waiting s < fuel
          → IsSettled s
          → (visit edges fuel m s).found ≡ false
          → IsDone s (visit edges fuel m s) (m ∷ []))
      → ((m : Bytes) → is_seen ms m ≡ true → count_unseen waiting s < fuel)
      → IsSettled s
      → (for_each (visit edges fuel) ms s).found ≡ false
      → IsDone s (for_each (visit edges fuel) ms s) ms
  unfolding for_each is_seen
  for_each-IsDone fuel [] s step enough settled no_loop = record {
    settled = settled;
    grows = record { on_path = λ k h. h; done = λ k h. h };
    all = λ m h. absurd (ground arith);
  }
  for_each-IsDone fuel (m ∷ ms) s step enough settled no_loop =
      let s1 = visit edges fuel m s in
      let first : IsDone s s1 (m ∷ []) = elim (Bool-cases s1.found) [
        | inl found ↦ absurd (ground (arith, for_each-stays edges fuel ms s1 found))
        | inr clear ↦ step m s (enough m (ground (arith, bytes_eq_iff m m))) settled clear
      ] in
      let le = count_unseen-Grows waiting s s1 first.grows in
      let rest =
        for_each-IsDone fuel ms s1 step (λ k h. omega (arith, enough k (ground (arith, h))))
          first.settled no_loop in
      record {
        settled = rest.settled;
        grows = record {
          on_path = λ k h. rest.grows.on_path k (first.grows.on_path k h);
          done = λ k h. rest.grows.done k (first.grows.done k h);
        };
        all = λ k h. elim (Bool-cases (is_seen ms k)) [
          | inl later ↦ rest.all k later
          | inr now ↦ rest.grows.done k (first.all k (ground (arith, h, now)))
        ];
      }

  -- Entering an actor that is not on the path yet.
  pub enter-IsSettled :
      (n : Bytes) (s : Search) → s.state n ≡ unseen → IsSettled s → IsSettled (set_mark n on_path s)
  unfolding set_mark
  enter-IsSettled n s new settled = record {
    next = λ k m h e.
        let was : s.state k ≡ finished = ground (arith, h) in
        let next = settled.next k m was e in
        ground (arith, next, new, bytes_eq_iff n m, ap s.state {x = n} {y = m});
    no_loop = λ k h. settled.no_loop k (ground (arith, h));
  }

  leave_loop :
      (n : Bytes) (s : Search)
      → s.state n ≡ on_path
      → ((m : Bytes) → IsEdge edges n m → s.state m ≡ finished)
      → IsSettled s
      → ¬ Reaches edges n n
  leave_loop n s path all settled (one e) = absurd (ground (arith, all n e, path))
  leave_loop n s path all settled (more {n = a} {m = b} e w) =
      absurd (ground (arith, reach_finished s b n settled (all b e) w, path))

  -- Leaving it: all that it waits for is finished, and it was on the path until now.
  pub leave-IsSettled :
      (n : Bytes) (s : Search)
      → s.state n ≡ on_path
      → ((m : Bytes) → IsEdge edges n m → s.state m ≡ finished)
      → IsSettled s
      → IsSettled (set_mark n finished s)
  unfolding set_mark
  leave-IsSettled n s path all settled = record {
    next = λ k m h e. elim (Bool-cases (bytes_eq n k)) [
      | inl same ↦ ground (arith, bytes_eq_iff n k, all m (rw ((bytes_eq_iff n k).0 same) e))
      | inr differ ↦ ground (arith, settled.next k m (ground (arith, differ, h)) e)
    ];
    no_loop = λ k h w. elim (Bool-cases (bytes_eq n k)) [
      | inl same ↦ leave_loop n s path all settled (rw ((bytes_eq_iff n k).0 same) w)
      | inr differ ↦ settled.no_loop k (ground (arith, differ, h)) w
    ];
  }
