-- ===== src/Wire/Values.antt =====
-- Column definitions, and the values of text and binary rows (wire/decode.go). A byte of a slice is
-- read at an index that the slice has, so the default of `get_or` is never taken.
pub mod Rows
use deadlocker.Base.{
  ℕ, zero, suc, ◌+◌, ◌-◌, ◌*◌, ◌/◌, ◌%◌, ◌^◌, ◌==◌, Bool, true, false, not, ◌&&◌, ◌||◌, String,
  Option, none, some, List, [], ◌∷◌, ◌++◌, Bytes, length, take, drop, get_or, little_endian,
  bit_and, ltb, if◌then◌else◌, str, decimal, pad_zero, hex_byte,
}
use deadlocker.Wire.Event.{Formats, ColumnDef, has_flag, name_of}
use deadlocker.Wire.Reader.{
  Failure, Reader, byte, fixed, uint16, uint32, len_enc_int, len_enc_string, remaining, skip,
}

abbrev pub type_names : List (ℕ × String)
type_names =
    (0x00, "DECIMAL")
    ∷ (0x01, "TINYINT")
    ∷ (0x02, "SMALLINT")
    ∷ (0x03, "INT")
    ∷ (0x04, "FLOAT")
    ∷ (0x05, "DOUBLE")
    ∷ (0x06, "NULL")
    ∷ (0x07, "TIMESTAMP")
    ∷ (0x08, "BIGINT")
    ∷ (0x09, "MEDIUMINT")
    ∷ (0x0a, "DATE")
    ∷ (0x0b, "TIME")
    ∷ (0x0c, "DATETIME")
    ∷ (0x0d, "YEAR")
    ∷ (0x0f, "VARCHAR")
    ∷ (0x10, "BIT")
    ∷ (0xf5, "JSON")
    ∷ (0xf6, "DECIMAL")
    ∷ (0xf7, "ENUM")
    ∷ (0xf8, "SET")
    ∷ (0xf9, "TINYBLOB")
    ∷ (0xfa, "MEDIUMBLOB")
    ∷ (0xfb, "LONGBLOB")
    ∷ (0xfc, "BLOB")
    ∷ (0xfd, "VARCHAR")
    ∷ (0xfe, "CHAR")
    ∷ (0xff, "GEOMETRY")
    ∷ []

unfoldable pub type_name : ℕ → Bytes
type_name t = name_of type_names t (str "type 0x" ++ hex_byte t)

unfoldable pub is_unsigned : ColumnDef → Bool
is_unsigned c = has_flag c.flags 0x0020

-- The first six strings are catalog, schema, table, org_table, name and org_name.
unfoldable pub decode_column_def : Reader → Reader × ColumnDef
decode_column_def r0 =
    let r1 = (len_enc_string r0).0 in
    let r2 = (len_enc_string r1).0 in
    let (r3, table, _) = len_enc_string r2 in
    let r4 = (len_enc_string r3).0 in
    let (r5, name, _) = len_enc_string r4 in
    let r6 = (len_enc_string r5).0 in
    if ltb (remaining r6) 1
    then (r6, record { name = name; table = table; type = 0; flags = 0 })
    else (let r7 = skip (skip (len_enc_int r6).0 2) 4 in
        let (r8, type) = byte r7 in
        let (r9, flags) = uint16 r8 in
        (skip r9 1, record { name = name; table = table; type = type; flags = flags }))

-- `strconv.FormatInt` of the low `w` bits read as a signed number.
unfoldable pub signed : ℕ → ℕ → Bytes
signed w v = if ltb v (2 ^ (w - 1)) then decimal v else b'-' ∷ decimal (2 ^ w - v)

unfoldable pub integer : ColumnDef → ℕ → ℕ → Bytes
integer col w v = if is_unsigned col then decimal v else signed w v

-- The text of a slice, where `nil` gives the empty string.
unfoldable pub with_slice : Reader × Option Bytes → (Bytes → Bytes) → Reader × Bytes
with_slice (r, none) f = (r, [])
with_slice (r, some b) f = (r, f b)

unfoldable pub date_text : Bytes → Bytes
date_text b =
    pad_zero 4 (little_endian (take 2 b))
    ++ str "-"
    ++ pad_zero 2 (get_or b 2 0)
    ++ str "-"
    ++ pad_zero 2 (get_or b 3 0)

unfoldable pub clock_text : Bytes → Bytes
clock_text b =
    str " "
    ++ pad_zero 2 (get_or b 4 0)
    ++ str ":"
    ++ pad_zero 2 (get_or b 5 0)
    ++ str ":"
    ++ pad_zero 2 (get_or b 6 0)

unfoldable pub decode_binary_date : Reader → Reader × Bytes
decode_binary_date r =
    let (r1, n) = byte r in
    if n == 0
    then (r1, str "0000-00-00")
    else if n == 4
    then with_slice (fixed r1 4) date_text
    else if n == 7
    then with_slice (fixed r1 7) (λ b. date_text b ++ clock_text b)
    else if n == 11
    then with_slice (fixed r1 11) (λ b.
      date_text b ++ clock_text b ++ str "." ++ pad_zero 6 (little_endian (take 4 (drop 7 b))))
    else (skip r1 n, str "<unexpected " ++ decimal n ++ str "-byte date>")

-- `n` is 8 or 12; the hours are a `uint32`.
unfoldable pub time_text : ℕ → Bytes → Bytes
time_text n b =
    let days = little_endian (take 4 (drop 1 b)) in
    let hours = (get_or b 5 0 + days * 24) % 2 ^ 32 in
    (if get_or b 0 0 == 1 then str "-" else [])
    ++ pad_zero 2 hours
    ++ str ":"
    ++ pad_zero 2 (get_or b 6 0)
    ++ str ":"
    ++ pad_zero 2 (get_or b 7 0)
    ++ (if n == 12 then str "." ++ pad_zero 6 (little_endian (take 4 (drop 8 b))) else [])

unfoldable pub decode_binary_time : Reader → Reader × Bytes
decode_binary_time r =
    let (r1, n) = byte r in
    if n == 0
    then (r1, str "00:00:00")
    else if n == 8 || n == 12
    then with_slice (fixed r1 n) (time_text n)
    else (skip r1 n, str "<unexpected " ++ decimal n ++ str "-byte time>")

-- A NULL is shown as the word.
unfoldable pub shown : Bytes → Bool → Bytes
shown s is_null = if is_null then str "NULL" else s

unfoldable pub decode_binary_value : Formats → Reader → ColumnDef → Reader × Bytes
decode_binary_value std r col =
    let t = col.type in
    if t == 0x01
    then (let (r1, v) = byte r in (r1, integer col 8 v))
    else if t == 0x02 || t == 0x0d
    then (let (r1, v) = uint16 r in (r1, integer col 16 v))
    else if t == 0x03 || t == 0x09
    then (let (r1, v) = uint32 r in (r1, integer col 32 v))
    else if t == 0x08
    then with_slice (fixed r 8) (λ b. integer col 64 (little_endian b))
    else if t == 0x04
    then with_slice (fixed r 4) (λ b. std.format_float (little_endian b) 32)
    else if t == 0x05
    then with_slice (fixed r 8) (λ b. std.format_float (little_endian b) 64)
    else if t == 0x06
    then (r, str "NULL")
    else if t == 0x0a || t == 0x0c || t == 0x07
    then decode_binary_date r
    else if t == 0x0b
    then decode_binary_time r
    else (let (r1, s, is_null) = len_enc_string r in (r1, shown s is_null))

-- Column `i` is bit `i + 2` of the bitmap.
unfoldable pub null_bit : Bytes → ℕ → Bool
null_bit bitmap i = has_flag (get_or bitmap ((i + 2) / 8) 0) (2 ^ ((i + 2) % 8))

unfoldable pub bitmap_len : ℕ → ℕ
bitmap_len n = (n + 7 + 2) / 8

unfoldable pub failed : Reader → Bool
failed r = elim r.err [ none ↦ false | some _ ↦ true ]

-- The loop over the columns from index `i` on.
unfoldable pub binary_values : Formats → Bytes → ℕ → List ColumnDef → Reader → Reader × List Bytes
binary_values std bitmap i [] r = (r, [])
binary_values std bitmap i (col ∷ cols) r =
    let skipped = binary_values std bitmap (i + 1) cols r in
    let (r1, v) = decode_binary_value std r col in
    let others = binary_values std bitmap (i + 1) cols r1 in
    if null_bit bitmap i
    then (skipped.0, str "NULL" ∷ skipped.1)
    else if failed r1
    then (r1, v ∷ [])
    else (others.0, v ∷ others.1)

unfoldable pub binary_row_from :
    Formats → List ColumnDef → Reader × Option Bytes → Reader × List Bytes
binary_row_from std cols (r, none) = (r, [])
binary_row_from std cols (r, some bitmap) = binary_values std bitmap 0 cols r

-- The values, and the cursor whose error is the error that the row reports.
unfoldable pub decode_binary_row : Formats → Reader → List ColumnDef → Reader × List Bytes
decode_binary_row std r cols =
    binary_row_from std cols (fixed (byte r).0 (bitmap_len (length cols)))

-- The loop of `decodeRow` over a text row. Every round that goes on reads a byte at least.
unfoldable pub text_values : ℕ → Reader → Reader × List Bytes
text_values zero r = (r, [])
text_values (suc fuel) r =
    let (r1, s, is_null) = len_enc_string r in
    let others = text_values fuel r1 in
    if ltb 0 (remaining r) && not (failed r)
    then (others.0, shown s is_null ∷ others.1)
    else (r, [])

unfoldable pub text_row : Reader → Reader × List Bytes
text_row r = text_values (length r.b) r
