-- ===== src/Wire/Values/Rows.antt =====
-- The values of text rows and of binary rows (wire/decode.go, `decodeRow` and `decodeBinaryRow`).
use deadlocker.Base.{
  ℕ, zero, suc, ◌+◌, ◌-◌, ◌/◌, ◌^◌, ◌≡◌, ◌≤◌, ◌<◌, refl, Bool, true, false, not, ◌&&◌, Option, none,
  some, ◌⊎◌, inl, inr, List, [], ◌∷◌, ◌++◌, Bytes, map, length, ltb, str, arith, All, Bool-cases,
  append_assoc, append-nil, length-append,
}
use deadlocker.Wire.Event.{Formats, ColumnDef}
use deadlocker.Wire.Reader.{
  Failure, Reader, new_reader, fail, byte, fixed, len_enc_int, len_enc_string, remaining,
}
use deadlocker.Wire.Reader.Bounds.{
  IsInside, byte-Advances, len_enc_string-Advances, len_enc_tail-Advances, len_enc_body-Advances,
}
use deadlocker.Wire.Reader.RoundTrip.{
  at, text_value, len_enc, len_enc_text, len_enc_string-len_enc_text, len_enc_string_null,
}
use deadlocker.Wire.Values.{
  shown, failed, text_values, text_row, bitmap_len, decode_binary_value, binary_values,
  binary_row_from, decode_binary_row,
}

-- The test of the loop over a text row.
abbrev pub goes_on : Reader → Bool
goes_on r = ltb 0 (remaining r) && not (failed r)

byte_progress : (r : Reader) → 0 < remaining r → (byte r).0.pos ≡ r.pos + 1
unfolding byte
byte_progress r h = ground arith

len_enc_string_progress :
    (r : Reader) → IsInside r → 0 < remaining r → r.pos < (len_enc_string r).0.pos
unfolding len_enc_string len_enc_int
len_enc_string_progress r h more =
    let one = byte-Advances r h in
    let two = len_enc_tail-Advances (byte r).0 (byte r).1 one.inside in
    omega (
      arith,
      byte_progress r more,
      two.forward,
      (len_enc_body-Advances (len_enc_int r).0 (len_enc_int r).1 (len_enc_int r).2
          two.inside).forward,
    )

remaining_inside : (r : Reader) → IsInside r → remaining r ≡ length r.b - r.pos
unfolding remaining
remaining_inside r h = ground arith

text_values_end :
    (fuel : ℕ) (r : Reader)
    → IsInside r
    → length r.b - r.pos ≤ fuel
    → goes_on (text_values fuel r).0 ≡ false
unfolding text_values
text_values_end zero r h f = ground (arith, remaining_inside r h)
text_values_end (suc fuel) r h f = elim (Bool-cases (goes_on r)) [
  | inl on ↦ rw on (
      let a = len_enc_string-Advances r h in
      text_values_end fuel (len_enc_string r).0 a.inside
        (ground (arith, a.same, a.forward, remaining_inside r h, len_enc_string_progress r h)))
  | inr off ↦ rw off off
]

-- The loop over a text row ends by its own test, never for want of fuel: the payload is used up, or
-- a failure is recorded.
pub text_row_end : (payload : Bytes) → goes_on (text_row (new_reader payload)).0 ≡ false
unfolding text_row new_reader
text_row_end payload = text_values_end (length payload) _ (omega arith) (omega arith)

-- A text row as the server sends it, and as it is shown.
pub text_payload : List (Option Bytes) → Bytes
text_payload [] = []
text_payload (v ∷ vs) = text_value v ++ text_payload vs

abbrev pub shown_value : Option Bytes → Bytes
shown_value none = str "NULL"
shown_value (some s) = s

abbrev pub Fits : Option Bytes → Type 0
Fits none = Unit
Fits (some s) = length s < 2 ^ 64

remaining-at : (done rest : Bytes) → remaining (at done rest) ≡ length rest
unfolding remaining
remaining-at done rest = ground (arith, length-append done rest)

-- One value of a row, read and shown.
abbrev Reads : Bytes → Bytes → Option Bytes → Reader × Bytes × Bool → Type 0
Reads done rest v (r, s, is_null) =
    (r ≡ at (done ++ text_value v) rest) × (shown s is_null ≡ shown_value v)

text_value-Reads :
    (done rest : Bytes) (v : Option Bytes)
    → Fits v
    → Reads done rest v (len_enc_string (at done (text_value v ++ rest)))
unfolding text_value shown
text_value-Reads done rest none h = rw (len_enc_string_null done rest) (refl, refl)
text_value-Reads done rest (some s) h = rw (len_enc_string-len_enc_text done s rest h) (refl, refl)

text_value_size : (v : Option Bytes) → 0 < length (text_value v)
unfolding text_value len_enc_text len_enc
text_value_size none = omega arith
text_value_size (some s) = ground arith

text_values-text_payload :
    (vs : List (Option Bytes)) (done : Bytes) (fuel : ℕ)
    → All Fits vs
    → length (text_payload vs) ≤ fuel
    → text_values fuel (at done (text_payload vs))
      ≡ (at (done ++ text_payload vs) [], map shown_value vs)
unfolding text_values text_payload failed
text_values-text_payload [] done zero h f = ground (arith, append-nil done)
text_values-text_payload [] done (suc fuel) h f =
    ground (arith, remaining-at done [], append-nil done)
text_values-text_payload (v ∷ vs) done zero (h, hs) f =
    absurd (omega (arith, length-append (text_value v) (text_payload vs), text_value_size v))
text_values-text_payload (v ∷ vs) done (suc fuel) (h, hs) f = ground (
  arith,
  text_value_size v,
  remaining-at done (text_value v ++ text_payload vs),
  length-append (text_value v) (text_payload vs),
  text_value-Reads done (text_payload vs) v h,
  text_values-text_payload vs (done ++ text_value v) fuel hs,
  append_assoc done (text_value v) (text_payload vs),
)

-- A text row whose values each have a length that fits 64 bits is shown as the values that the
-- server sent, NULL by its name, and without a failure.
pub text_row-text_payload :
    (vs : List (Option Bytes))
    → All Fits vs
    → text_row (new_reader (text_payload vs)) ≡ (at (text_payload vs) [], map shown_value vs)
unfolding text_row new_reader
text_row-text_payload vs h = text_values-text_payload vs [] _ h (omega arith)

-- The NULL bit of every column lies inside the bitmap that the row reserves.
pub null_bit_inside : (i n : ℕ) → i < n → (i + 2) / 8 < bitmap_len n
unfolding bitmap_len
null_bit_inside i n h = omega arith

binary_values-length :
    (std : Formats) (bitmap : Bytes) (i : ℕ) (cols : List ColumnDef) (r : Reader)
    → (length (binary_values std bitmap i cols r).1 ≡ length cols)
      ⊎ (failed (binary_values std bitmap i cols r).0 ≡ true)
unfolding binary_values
binary_values-length std bitmap i [] r = inl refl
binary_values-length std bitmap i (col ∷ cols) r = ground (
  arith,
  binary_values-length std bitmap (i + 1) cols r,
  binary_values-length std bitmap (i + 1) cols (decode_binary_value std r col).0,
)

-- A slice that is not there leaves a failure behind.
failed_by : (e : Option Failure) (r : Reader) (f : Failure) → e ≡ r.err → failed (fail r f) ≡ true
unfolding fail failed
failed_by none r f h = rw (← h) refl
failed_by (some g) r f h = rw (← h) refl

fixed-failed : (r : Reader) (n : ℕ) → (fixed r n).1 ≡ none → failed (fixed r n).0 ≡ true
unfolding fixed failed
fixed-failed r n h = ground (arith, failed_by r.err r (Failure.want_bytes n r.pos) refl)

binary_row_from-length :
    (std : Formats) (cols : List ColumnDef) (out : Reader × Option Bytes)
    → (out.1 ≡ none → failed out.0 ≡ true)
    → (length (binary_row_from std cols out).1 ≡ length cols)
      ⊎ (failed (binary_row_from std cols out).0 ≡ true)
unfolding binary_row_from
binary_row_from-length std cols (r, none) h = inr (h refl)
binary_row_from-length std cols (r, some bitmap) h = binary_values-length std bitmap 0 cols r

-- A binary row shows one value for each column of its result set, or reports a failure.
pub decode_binary_row-length :
    (std : Formats) (r : Reader) (cols : List ColumnDef)
    → (length (decode_binary_row std r cols).1 ≡ length cols)
      ⊎ (failed (decode_binary_row std r cols).0 ≡ true)
unfolding decode_binary_row
decode_binary_row-length std r cols =
    binary_row_from-length std cols _ (fixed-failed (byte r).0 (bitmap_len (length cols)))
