-- ===== src/Wire/Reader.antt =====
-- The cursor over a packet payload (wire/packet.go): every accessor checks its bounds and records
-- the first failure. An accessor returns the new cursor and its value; a `nil` slice is `none`.
pub mod Bounds
pub mod RoundTrip
use deadlocker.Base.{
  ℕ, ◌+◌, ◌-◌, Bool, true, false, Option, none, some, [], ◌∷◌, ◌++◌, Bytes, length, take, drop,
  get_or, little_endian, ltb, leb, ◌==◌, if◌then◌else◌, str, decimal,
}

-- What `fail` formats, with the numbers that it prints.
pub data Failure : Type 0 where
  want_byte : ℕ → Failure
  want_bytes : ℕ → ℕ → Failure
  want_string : ℕ → ℕ → Failure
  past_end : ℕ → Failure

pub record Reader : Type 0 where
  pub b : Bytes
  pub pos : ℕ
  pub err : Option Failure

unfoldable pub new_reader : Bytes → Reader
new_reader b = record { b = b; pos = 0; err = none }

-- `err.Error()`.
unfoldable pub error_text : Failure → Bytes
unfolding str decimal
error_text (want_byte p) = str "truncated: want 1 byte at " ++ decimal p
error_text (want_bytes n p) = str "truncated: want " ++ decimal n ++ str " bytes at " ++ decimal p
error_text (want_string n h) =
    str "truncated string: want " ++ decimal n ++ str " bytes, have " ++ decimal h
error_text (past_end p) = str "truncated: past end at " ++ decimal p

first_failure : Option Failure → Failure → Option Failure
first_failure none f = some f
first_failure (some e) f = some e

unfoldable pub fail : Reader → Failure → Reader
unfolding first_failure
fail r f = record r { err = first_failure r.err f }

unfoldable pub remaining : Reader → ℕ
remaining r = if ltb (length r.b) r.pos then 0 else length r.b - r.pos

unfoldable pub byte : Reader → Reader × ℕ
unfolding fail remaining
byte r =
    if ltb (remaining r) 1
    then (fail r (want_byte r.pos), 0)
    else (record r { pos = r.pos + 1 }, get_or r.b r.pos 0)

unfoldable pub fixed : Reader → ℕ → Reader × Option Bytes
unfolding fail remaining
fixed r n =
    if ltb (remaining r) n
    then (record (fail r (want_bytes n r.pos)) { pos = length r.b }, none)
    else (record r { pos = r.pos + n }, some (take n (drop r.pos r.b)))

-- The number that a slice holds, or 0 for `nil`.
unfoldable pub number : Option Bytes → ℕ
number none = 0
number (some b) = little_endian b

unfoldable pub uint16 : Reader → Reader × ℕ
uint16 r = let (r', b) = fixed r 2 in (r', number b)

unfoldable pub uint32 : Reader → Reader × ℕ
uint32 r = let (r', b) = fixed r 4 in (r', number b)

-- What follows the first byte of a length-encoded integer.
unfoldable pub len_enc_tail : Reader → ℕ → Reader × ℕ × Bool
len_enc_tail r first =
    if ltb first 0xfb
    then (r, first, false)
    else if first == 0xfb
    then (r, 0, true)
    else if first == 0xfc
    then (let (r', v) = uint16 r in (r', v, false))
    else if first == 0xfd
    then (let (r', b) = fixed r 3 in (r', number b, false))
    else (let (r', b) = fixed r 8 in (r', number b, false))

unfoldable pub len_enc_int : Reader → Reader × ℕ × Bool
len_enc_int r = let (r', first) = byte r in len_enc_tail r' first

-- `string(b)`, where `nil` gives the empty string.
unfoldable pub string_of : Option Bytes → Bytes
string_of none = []
string_of (some b) = b

unfoldable pub len_enc_body : Reader → ℕ → Bool → Reader × Bytes × Bool
unfolding fail remaining
len_enc_body r n true = (r, [], true)
len_enc_body r n false =
    if ltb (remaining r) n
    then (record (fail r (want_string n (remaining r))) { pos = length r.b }, [], false)
    else (let (r', s) = fixed r n in (r', string_of s, false))

unfoldable pub len_enc_string : Reader → Reader × Bytes × Bool
len_enc_string r = let (r', n, is_null) = len_enc_int r in len_enc_body r' n is_null

-- The bytes up to the first NUL and whether there is one.
unfoldable pub until_nul : Bytes → Bytes × Bool
until_nul [] = ([], false)
until_nul (c ∷ cs) = let (s, found) = until_nul cs in if c == 0 then ([], true) else (c ∷ s, found)

unfoldable pub nul_string : Reader → Reader × Bytes
nul_string r =
    if ltb (length r.b) r.pos
    then (fail r (past_end r.pos), [])
    else (let (s, found) = until_nul (drop r.pos r.b) in
        if found
        then (record r { pos = r.pos + length s + 1 }, s)
        else (record r { pos = length r.b }, s))

unfoldable pub rest_of_packet : Reader → Reader × Bytes
unfolding remaining
rest_of_packet r =
    if leb (remaining r) 0 then (r, []) else (record r { pos = length r.b }, drop r.pos r.b)

unfoldable pub skip : Reader → ℕ → Reader
skip r n = (fixed r n).0
