-- ===== src/Store/Scenarios/Order.antt =====
-- The order of the keys that revisions stand under (store/scenarios.go).
use deadlocker.Base.{
  ℕ, zero, suc, ◌/◌, ◌%◌, ◌^◌, ◌<◌, ltb, ◌≡◌, refl, ap, sym, ◌∙◌, true, false, [], ◌∷◌, ◌++◌, Bytes,
  length, length-append, le_bytes, length-le_bytes, reverse, text_before, if◌then◌else◌, arith,
}
use mathlib.Core.List.{reverse-cons}
use deadlocker.Store.Config.{encode_version}

before-append :
    (xs ys : Bytes) (a b : ℕ)
    → length xs ≡ length ys
    → text_before (xs ++ (a ∷ [])) (ys ++ (b ∷ []))
      ≡ (if text_before xs ys then true else if text_before ys xs then false else ltb a b)
unfolding text_before
before-append [] [] a b h = ground arith
before-append [] (y ∷ ys) a b h = absurd (omega arith)
before-append (x ∷ xs) [] a b h = absurd (omega arith)
before-append (x ∷ xs) (y ∷ ys) a b h = ground (arith, before-append xs ys a b (omega arith))

length-reverse : (xs : Bytes) → length (reverse xs) ≡ length xs
length-reverse [] = refl
length-reverse (x ∷ xs) =
    ap length (reverse-cons x xs)
    ∙ length-append (reverse xs) (x ∷ [])
    ∙ omega (arith, length-reverse xs)

before-bytes :
    (w u v : ℕ)
    → u < 256 ^ w
    → v < 256 ^ w
    → text_before (reverse (le_bytes w u)) (reverse (le_bytes w v)) ≡ ltb u v
unfolding le_bytes text_before
before-bytes zero u v hu hv = ground arith
before-bytes (suc w) u v hu hv =
    let hi = before-bytes w (u / 256) (v / 256) (omega arith) (omega arith) in
    let lo = before-bytes w (v / 256) (u / 256) (omega arith) (omega arith) in
    let lengths : length (reverse (le_bytes w (u / 256)))
        ≡ length (reverse (le_bytes w (v / 256))) =
      length-reverse (le_bytes w (u / 256))
      ∙ length-le_bytes w (u / 256)
      ∙ sym (length-reverse (le_bytes w (v / 256)) ∙ length-le_bytes w (v / 256)) in
    rw
      (
        reverse-cons (u % 256) (le_bytes w (u / 256)),
        reverse-cons (v % 256) (le_bytes w (v / 256)),
        before-append (reverse (le_bytes w (u / 256))) (reverse (le_bytes w (v / 256))) (u % 256)
            (v % 256) lengths,
        hi,
        lo,
      )
      (ground arith)

-- The keys are ordered as their versions.
pub before-encode :
    (u v : ℕ)
    → u < 2 ^ 64
    → v < 2 ^ 64
    → text_before (encode_version u) (encode_version v) ≡ ltb u v
unfolding encode_version
before-encode u v hu hv = before-bytes 8 u v (omega arith) (omega arith)
