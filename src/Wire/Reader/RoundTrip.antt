-- ===== src/Wire/Reader/RoundTrip.antt =====
-- The primitive types of the MySQL protocol, written out, and read back by the cursor
-- (wire/packet.go, `reader`).
use deadlocker.Base.{
  le_bytes, length-le_bytes, little_endian-le_bytes, ℕ, ◌^◌, ◌<◌, ◌≡◌, refl, sym, ap, ◌∙◌, true,
  false, Option, none, some, [], ◌∷◌, ◌++◌, Bytes, length, get_or, length-append, take-append,
  drop-append, append_assoc, append-nil, arith, ltb, if◌then◌else◌, Bool-cases, inl, inr, ltb→lt,
}
use deadlocker.Wire.Reader.{
  Reader, byte, fixed, uint16, len_enc_tail, len_enc_int, len_enc_body, len_enc_string, number,
  string_of, remaining,
}

-- A cursor that has read `done` without a failure and has `rest` before it.
abbrev pub at : Bytes → Bytes → Reader
at done rest = record { b = done ++ rest; pos = length done; err = none }

get_or-append : (xs : Bytes) (c : ℕ) (ys : Bytes) → get_or (xs ++ (c ∷ ys)) (length xs) 0 ≡ c
get_or-append [] c ys = refl
get_or-append (x ∷ xs) c ys = get_or-append xs c ys

-- `done` followed by the byte just read.
at-snoc : (done rest : Bytes) (c : ℕ) → (done ++ (c ∷ [])) ++ rest ≡ done ++ (c ∷ rest)
at-snoc done rest c = append_assoc done (c ∷ []) rest

pub byte-at :
    (done rest : Bytes) (c : ℕ) → byte (at done (c ∷ rest)) ≡ (at (done ++ (c ∷ [])) rest, c)
unfolding byte
byte-at done rest c = ground (
  arith,
  get_or-append done c rest,
  length-append done (c ∷ rest),
  length-append done (c ∷ []),
  at-snoc done rest c,
)

pub fixed-at :
    (done xs rest : Bytes) (n : ℕ)
    → n ≡ length xs
    → fixed (at done (xs ++ rest)) n ≡ (at (done ++ xs) rest, some xs)
unfolding fixed
fixed-at done xs rest n e = ground (
  arith,
  length-append done (xs ++ rest),
  length-append xs rest,
  length-append done xs,
  drop-append done (xs ++ rest) (length done) refl,
  take-append xs rest n e,
  append_assoc done xs rest,
)

-- A length-encoded integer, as the MySQL protocol defines it.
unfoldable pub len_enc : ℕ → Bytes
len_enc v =
    if ltb v 0xfb
    then v ∷ []
    else if ltb v 0x10000
    then 0xfc ∷ le_bytes 2 v
    else if ltb v 0x1000000
    then 0xfd ∷ le_bytes 3 v
    else 0xfe ∷ le_bytes 8 v

pub fixed_number :
    (done rest : Bytes) (w v : ℕ)
    → v < 256 ^ w
    → fixed (at done (le_bytes w v ++ rest)) w
      ≡ (at (done ++ le_bytes w v) rest, some (le_bytes w v))
fixed_number done rest w v h = fixed-at done (le_bytes w v) rest w (sym (length-le_bytes w v))

pub number-le_bytes : (w v : ℕ) → v < 256 ^ w → number (some (le_bytes w v)) ≡ v
unfolding number
number-le_bytes w v h = little_endian-le_bytes w v h

module _ (done rest : Bytes) (v : ℕ) where
  tail_one : ltb v 0xfb ≡ true → len_enc_tail (at done rest) v ≡ (at done rest, v, false)
  unfolding len_enc_tail
  tail_one h = rw h

  tail_two :
      v < 0x10000
      → len_enc_tail (at done (le_bytes 2 v ++ rest)) 0xfc
        ≡ (at (done ++ le_bytes 2 v) rest, v, false)
  unfolding len_enc_tail uint16
  tail_two h = rw (fixed_number done rest 2 v h, number-le_bytes 2 v h)

  tail_three :
      v < 0x1000000
      → len_enc_tail (at done (le_bytes 3 v ++ rest)) 0xfd
        ≡ (at (done ++ le_bytes 3 v) rest, v, false)
  unfolding len_enc_tail
  tail_three h = rw (fixed_number done rest 3 v h, number-le_bytes 3 v h)

  tail_eight :
      v < 2 ^ 64
      → len_enc_tail (at done (le_bytes 8 v ++ rest)) 0xfe
        ≡ (at (done ++ le_bytes 8 v) rest, v, false)
  unfolding len_enc_tail
  tail_eight h = rw (fixed_number done rest 8 v h, number-le_bytes 8 v h)

-- Reading the first byte and then what it announces.
len_enc_int-step :
    (done tail rest : Bytes) (c v : ℕ)
    → len_enc_tail (at (done ++ (c ∷ [])) (tail ++ rest)) c
      ≡ (at ((done ++ (c ∷ [])) ++ tail) rest, v, false)
    → len_enc_int (at done ((c ∷ tail) ++ rest)) ≡ (at (done ++ (c ∷ tail)) rest, v, false)
unfolding len_enc_int
len_enc_int-step done tail rest c v h =
    rw (byte-at done (tail ++ rest) c)
      (h ∙ ap (λ (d : Bytes). (at d rest, v, false)) (append_assoc done (c ∷ []) tail))

-- `lenEncInt` reads back every number that fits 64 bits, in the form of its size, and stops
-- behind it.
pub len_enc_int-len_enc :
    (done rest : Bytes) (v : ℕ)
    → v < 2 ^ 64
    → len_enc_int (at done (len_enc v ++ rest)) ≡ (at (done ++ len_enc v) rest, v, false)
unfolding len_enc
len_enc_int-len_enc done rest v h = elim (Bool-cases (ltb v 0xfb)) [
  | inl one ↦ rw one (
      len_enc_int-step done [] rest v v
        (rw (append-nil (done ++ (v ∷ []))) (tail_one (done ++ (v ∷ [])) rest v one)))
  | inr more ↦ rw more (elim (Bool-cases (ltb v 0x10000)) [
    | inl two ↦ rw two (
        len_enc_int-step done (le_bytes 2 v) rest 0xfc v
          (tail_two (done ++ (0xfc ∷ [])) rest v (ltb→lt v _ two)))
    | inr wide ↦ rw wide (elim (Bool-cases (ltb v 0x1000000)) [
      | inl three ↦ rw three (
          len_enc_int-step done (le_bytes 3 v) rest 0xfd v
            (tail_three (done ++ (0xfd ∷ [])) rest v (ltb→lt v _ three)))
      | inr eight ↦ rw eight (
          len_enc_int-step done (le_bytes 8 v) rest 0xfe v
            (tail_eight (done ++ (0xfe ∷ [])) rest v h))
    ])
  ])
]

-- A length-encoded string, and a value of a text row, where `none` is SQL NULL.
unfoldable pub len_enc_text : Bytes → Bytes
len_enc_text s = len_enc (length s) ++ s

unfoldable pub text_value : Option Bytes → Bytes
text_value none = 0xfb ∷ []
text_value (some s) = len_enc_text s

len_enc_body-at :
    (done s rest : Bytes)
    → len_enc_body (at done (s ++ rest)) (length s) false ≡ (at (done ++ s) rest, s, false)
unfolding len_enc_body remaining string_of
len_enc_body-at done s rest =
    ground
      (arith, fixed-at done s rest (length s), length-append done (s ++ rest), length-append s rest)

-- `lenEncString` reads back every string whose length fits 64 bits, and stops behind it.
pub len_enc_string-len_enc_text :
    (done s rest : Bytes)
    → length s < 2 ^ 64
    → len_enc_string (at done (len_enc_text s ++ rest))
      ≡ (at (done ++ len_enc_text s) rest, s, false)
unfolding len_enc_string len_enc_text
len_enc_string-len_enc_text done s rest h = rw (append_assoc (len_enc (length s)) s rest) (
    rw (len_enc_int-len_enc done (s ++ rest) (length s) h) (
      len_enc_body-at (done ++ len_enc (length s)) s rest
      ∙ ap (λ (d : Bytes). (at d rest, s, false)) (append_assoc done (len_enc (length s)) s)))

pub len_enc_string_null :
    (done rest : Bytes)
    → len_enc_string (at done (0xfb ∷ rest)) ≡ (at (done ++ (0xfb ∷ [])) rest, [], true)
unfolding len_enc_string len_enc_int len_enc_tail len_enc_body
len_enc_string_null done rest = rw (byte-at done rest 0xfb)
