-- ===== src/Wire/Reader/Bounds.antt =====
-- The cursor of a payload and its failure, under any reads (wire/packet.go, `reader`).
use deadlocker.Base.{
  ℕ, ◌+◌, ◌≤◌, ◌≡◌, refl, ◌∙◌, Bool, true, false, Option, none, some, Bytes, length, drop,
  length-drop, arith, List, [], ◌∷◌,
}
use deadlocker.Wire.Reader.{
  Failure, Reader, fail, byte, fixed, uint16, uint32, len_enc_tail, len_enc_int, len_enc_body,
  len_enc_string, until_nul, nul_string, rest_of_packet, remaining, skip,
}

abbrev pub Keeps : Option Failure → Option Failure → Type 0
Keeps none e = Unit
Keeps (some f) e = e ≡ some f

Keeps-refl : (e : Option Failure) → Keeps e e
Keeps-refl none = tt
Keeps-refl (some f) = refl

Keeps-trans : (a b c : Option Failure) → Keeps a b → Keeps b c → Keeps a c
Keeps-trans none b c h k = tt
Keeps-trans (some f) none c h k = cc
Keeps-trans (some f) (some g) c h k = k ∙ h

-- A cursor is inside its payload.
abbrev pub IsInside : Reader → Type 0
IsInside r = r.pos ≤ length r.b

-- What a reading may do to the cursor.
pub record Advances (r r' : Reader) : Type 0 where
  pub same : r'.b ≡ r.b
  pub forward : r.pos ≤ r'.pos
  pub inside : IsInside r'
  pub keeps : Keeps r.err r'.err

pub Advances-refl : (r : Reader) → IsInside r → Advances r r
Advances-refl r h = record {
  same = refl;
  forward = omega arith;
  inside = h;
  keeps = Keeps-refl r.err;
}

pub Advances-trans : (r s t : Reader) → Advances r s → Advances s t → Advances r t
Advances-trans r s t h k = record {
  same = k.same ∙ h.same;
  forward = omega arith;
  inside = k.inside;
  keeps = Keeps-trans r.err s.err t.err h.keeps k.keeps;
}

fail-Keeps : (r : Reader) (f : Failure) → Keeps r.err (fail r f).err
unfolding fail
fail-Keeps r f = keeps r.err
  where
    keeps : (e : Option Failure) → Keeps e (fail (record r { err = e }) f).err
    keeps none = tt
    keeps (some g) = refl

pub byte-Advances : (r : Reader) → IsInside r → Advances r (byte r).0
unfolding byte
byte-Advances r h = ground (arith, Keeps-refl r.err, fail-Keeps r (Failure.want_byte r.pos))

pub fixed-Advances : (r : Reader) (n : ℕ) → IsInside r → Advances r (fixed r n).0
unfolding fixed
fixed-Advances r n h = ground (arith, Keeps-refl r.err, fail-Keeps r (Failure.want_bytes n r.pos))

pub len_enc_tail-Advances :
    (r : Reader) (first : ℕ) → IsInside r → Advances r (len_enc_tail r first).0
unfolding len_enc_tail uint16
len_enc_tail-Advances r first h =
    ground
      (arith, Advances-refl r h, fixed-Advances r 2 h, fixed-Advances r 3 h, fixed-Advances r 8 h)

pub len_enc_int-Advances : (r : Reader) → IsInside r → Advances r (len_enc_int r).0
unfolding len_enc_int
len_enc_int-Advances r h =
    let a = byte-Advances r h in
    Advances-trans r (byte r).0 _ a (len_enc_tail-Advances (byte r).0 (byte r).1 a.inside)

pub len_enc_body-Advances :
    (r : Reader) (n : ℕ) (null : Bool) → IsInside r → Advances r (len_enc_body r n null).0
unfolding len_enc_body
len_enc_body-Advances r n true h = Advances-refl r h
len_enc_body-Advances r n false h =
    ground (arith, fixed-Advances r n h, fail-Keeps r (Failure.want_string n (remaining r)))

pub len_enc_string-Advances : (r : Reader) → IsInside r → Advances r (len_enc_string r).0
unfolding len_enc_string
len_enc_string-Advances r h =
    let a = len_enc_int-Advances r h in
    Advances-trans r (len_enc_int r).0 _ a
      (len_enc_body-Advances (len_enc_int r).0 (len_enc_int r).1 (len_enc_int r).2 a.inside)

until_nul-length :
    (s : Bytes)
    → (length (until_nul s).0 ≤ length s)
      × ((until_nul s).1 ≡ true → length (until_nul s).0 + 1 ≤ length s)
unfolding until_nul
until_nul-length [] = ground arith
until_nul-length (c ∷ cs) = ground (arith, until_nul-length cs)

pub nul_string-Advances : (r : Reader) → IsInside r → Advances r (nul_string r).0
unfolding nul_string
nul_string-Advances r h = ground (
  arith,
  Keeps-refl r.err,
  fail-Keeps r (Failure.past_end r.pos),
  until_nul-length (drop r.pos r.b),
  length-drop r.pos r.b,
)

pub rest_of_packet-Advances : (r : Reader) → IsInside r → Advances r (rest_of_packet r).0
unfolding rest_of_packet
rest_of_packet-Advances r h = ground (arith, Keeps-refl r.err)

-- A call of one accessor.
pub data Operation : Type 0 where
  reads_byte reads_uint16 reads_uint32 reads_int reads_string reads_nul reads_rest : Operation
  reads_fixed skips : ℕ → Operation

pub perform : Operation → Reader → Reader
perform reads_byte r = (byte r).0
perform reads_uint16 r = (uint16 r).0
perform reads_uint32 r = (uint32 r).0
perform reads_int r = (len_enc_int r).0
perform reads_string r = (len_enc_string r).0
perform reads_nul r = (nul_string r).0
perform reads_rest r = (rest_of_packet r).0
perform (reads_fixed n) r = (fixed r n).0
perform (skips n) r = skip r n

pub performs : List Operation → Reader → Reader
performs [] r = r
performs (o ∷ os) r = performs os (perform o r)

perform-Advances : (o : Operation) (r : Reader) → IsInside r → Advances r (perform o r)
unfolding perform uint16 uint32 skip
perform-Advances reads_byte r h = byte-Advances r h
perform-Advances reads_uint16 r h = fixed-Advances r 2 h
perform-Advances reads_uint32 r h = fixed-Advances r 4 h
perform-Advances reads_int r h = len_enc_int-Advances r h
perform-Advances reads_string r h = len_enc_string-Advances r h
perform-Advances reads_nul r h = nul_string-Advances r h
perform-Advances reads_rest r h = rest_of_packet-Advances r h
perform-Advances (reads_fixed n) r h = fixed-Advances r n h
perform-Advances (skips n) r h = fixed-Advances r n h

-- Whatever a decoder reads, in whatever order and from whatever bytes, starting with the cursor
-- inside the payload: the cursor keeps the payload, only moves forward, stays inside the payload
-- and keeps its first failure.
pub performs-Advances : (os : List Operation) (r : Reader) → IsInside r → Advances r (performs os r)
unfolding performs
performs-Advances [] r h = Advances-refl r h
performs-Advances (o ∷ os) r h =
    let a = perform-Advances o r h in
    Advances-trans r (perform o r) _ a (performs-Advances os (perform o r) a.inside)
