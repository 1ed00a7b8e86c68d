-- ===== src/Feed/Retained.antt =====
-- A bounded history against the log of all that was published.
use deadlocker.Base.{
  ℕ, zero, suc, ◌+◌, ◌-◌, ◌≤◌, ◌≡◌, ◌⊎◌, inl, inr, refl, sym, ap, ◌∙◌, map, List, [], ◌∷◌, ◌++◌,
  length, drop, length-append, length-drop, ltb, arith, Bool-cases,
}
use deadlocker.Feed.{Item, after_seq}

module _ {ℓ} {A : Type ℓ} where
  abbrev pub bodies : List (Item A) → List A
  bodies es = map (λ e. e.body) es

  pub bodies-append : (xs ys : List (Item A)) → bodies (xs ++ ys) ≡ bodies xs ++ bodies ys
  bodies-append [] ys = refl
  bodies-append (x ∷ xs) ys = rw (bodies-append xs ys)

  pub bodies-drop : (k : ℕ) (xs : List (Item A)) → bodies (drop k xs) ≡ drop k (bodies xs)
  bodies-drop zero xs = refl
  bodies-drop (suc k) [] = refl
  bodies-drop (suc k) (x ∷ xs) = bodies-drop k xs

  pub length-bodies : (xs : List (Item A)) → length (bodies xs) ≡ length xs
  length-bodies [] = refl
  length-bodies (x ∷ xs) = ap suc (length-bodies xs)

  -- The sequence numbers go up by one, from the one after `n`.
  abbrev pub Numbered : ℕ → List (Item A) → Type 0
  Numbered n [] = Unit
  Numbered n (e ∷ es) = (e.seq ≡ n + 1) × Numbered (n + 1) es

  Numbered-append :
      (n : ℕ) (es : List (Item A)) (e : Item A)
      → Numbered n es
      → e.seq ≡ n + length es + 1
      → Numbered n (es ++ (e ∷ []))
  Numbered-append n [] e v h = (omega arith, tt)
  Numbered-append n (x ∷ xs) e (hx, v) h = (hx, Numbered-append (n + 1) xs e v (omega arith))

  Numbered-drop :
      (n k : ℕ) (es : List (Item A)) → k ≤ length es → Numbered n es → Numbered (n + k) (drop k es)
  Numbered-drop n zero es le v = let e : n + 0 ≡ n = omega arith in rw e v
  Numbered-drop n (suc k) [] le v = absurd (omega arith)
  Numbered-drop n (suc k) (x ∷ xs) le (hx, v) =
      let e : n + suc k ≡ n + 1 + k = omega arith in
      rw e (Numbered-drop (n + 1) k xs (omega arith) v)

  drop-append_le :
      (k : ℕ) (xs ys : List (Item A)) → k ≤ length xs → drop k (xs ++ ys) ≡ drop k xs ++ ys
  drop-append_le zero xs ys le = refl
  drop-append_le (suc k) [] ys le = absurd (omega arith)
  drop-append_le (suc k) (x ∷ xs) ys le = drop-append_le k xs ys (omega arith)

  drop-nil : (k : ℕ) → drop {A = Item A} k [] ≡ []
  drop-nil zero = refl
  drop-nil (suc k) = refl

  drop-drop : (a b : ℕ) (xs : List (Item A)) → drop a (drop b xs) ≡ drop (b + a) xs
  drop-drop a zero xs = let e : 0 + a ≡ a = omega arith in rw e
  drop-drop a (suc b) [] = let e : suc b + a ≡ suc (b + a) = omega arith in rw (e, drop-nil a)
  drop-drop a (suc b) (x ∷ xs) =
      let e : suc b + a ≡ suc (b + a) = omega arith in rw e (drop-drop a b xs)

  -- In a numbered list, the items after a number are those behind a position.
  pub after_seq-Numbered :
      (n since : ℕ) (es : List (Item A)) → Numbered n es → after_seq since es ≡ drop (since - n) es
  unfolding after_seq
  after_seq-Numbered n since [] v = sym (drop-nil (since - n))
  after_seq-Numbered n since (e ∷ es) (h, v) = elim (Bool-cases (ltb since e.seq)) [
    | inl newer ↦
        let a : since - n ≡ 0 = ground arith in
        let b : since - (n + 1) ≡ 0 = ground arith in
        rw (newer, after_seq-Numbered (n + 1) since es v, a, b)
    | inr older ↦
        let a : since - n ≡ suc (since - (n + 1)) = ground arith in
        rw (older, after_seq-Numbered (n + 1) since es v, a)
  ]

  -- `log` is all that was published, `history` what is kept: the log without its first `dropped`
  -- items. At most `limit` are kept, and at least `least` once something was dropped.
  pub record Retains (limit least : ℕ) (log history : List (Item A)) (seq : ℕ) : Type ℓ where
    pub dropped : ℕ
    pub dropped_le : dropped ≤ length log
    pub is_suffix : history ≡ drop dropped log
    pub numbered : Numbered 0 log
    pub length_log : length log ≡ seq
    pub bounded : length history ≤ limit
    pub recent : (dropped ≡ 0) ⊎ (least ≤ length history)

  -- One more item, and `n` of the oldest dropped.
  pub push-Retains :
      (limit least n : ℕ) (log history : List (Item A)) (seq : ℕ) (e : Item A)
      → Retains limit least log history seq
      → e.seq ≡ seq + 1
      → n ≤ length history + 1
      → length history + 1 ≤ limit + n
      → (n ≡ 0) ⊎ (least + n ≤ length history + 1)
      → Retains limit least (log ++ (e ∷ [])) (drop n (history ++ (e ∷ []))) (seq + 1)
  push-Retains limit least n log history seq e v number le fits enough =
      let total : length (log ++ (e ∷ [])) ≡ length log + 1 = length-append log (e ∷ []) in
      let kept : length history ≡ length log - v.dropped =
        ap length v.is_suffix ∙ length-drop v.dropped log in
      let now : length (drop n (history ++ (e ∷ []))) ≡ length history + 1 - n =
        omega (arith, length-drop n (history ++ (e ∷ [])), length-append history (e ∷ [])) in
      let same : log ++ (e ∷ []) ≡ log ++ (e ∷ []) = refl in
      record {
        dropped = v.dropped + n;
        dropped_le = omega (arith, v.dropped_le);
        is_suffix =
            ap (λ h. drop n (h ++ (e ∷ []))) v.is_suffix
            ∙ ap (drop n) (sym (drop-append_le v.dropped log (e ∷ []) v.dropped_le))
            ∙ drop-drop n v.dropped (log ++ (e ∷ []));
        numbered = Numbered-append 0 log e v.numbered (omega (arith, v.length_log));
        length_log = omega (arith, v.length_log);
        bounded = omega arith;
        recent = ground (arith, v.recent);
      }

  -- A reader that has seen the log up to `since`, and is not behind by more than what is always
  -- kept, gets exactly the rest of it.
  pub after_seq-Retains :
      (limit least : ℕ) (log history : List (Item A)) (seq since : ℕ)
      → Retains limit least log history seq
      → seq ≤ since + least
      → after_seq since history ≡ drop since log
  after_seq-Retains limit least log history seq since v near =
      let kept : length history ≡ length log - v.dropped =
        ap length v.is_suffix ∙ length-drop v.dropped log in
      let le : v.dropped ≤ since = ground (arith, v.recent, v.length_log, v.dropped_le) in
      let e : v.dropped + (since - v.dropped) ≡ since = omega arith in
      let tail : Numbered v.dropped history =
        let zero_left : 0 + v.dropped ≡ v.dropped = omega arith in
        rw v.is_suffix (rw zero_left at (Numbered-drop 0 v.dropped log v.dropped_le v.numbered)) in
      after_seq-Numbered v.dropped since history tail
      ∙ ap (drop (since - v.dropped)) v.is_suffix
      ∙ drop-drop (since - v.dropped) v.dropped log
      ∙ ap (λ k. drop k log) e

  pub empty-Retains : (limit least : ℕ) → Retains limit least [] [] 0
  empty-Retains limit least = record {
    dropped = 0;
    dropped_le = omega arith;
    is_suffix = refl;
    numbered = tt;
    length_log = refl;
    bounded = omega arith;
    recent = inl refl;
  }
