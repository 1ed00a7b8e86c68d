-- ===== src/Base/Text.antt =====
-- The text functions of Go's `fmt`, `encoding/hex` and `strings` that the program calls, on bytes.
use Prim.Native.Nat.{ℕ, ◌≤◌, zero, suc, ◌+◌, ◌-◌, ◌*◌, ◌/◌, ◌%◌, ◌<◌}
use Prim.Native.Char.{code}
use Prim.Native.String.{String}
use mathlib.Core.Path.{◌≡◌, refl}
use mathlib.Core.Bool.{Bool, true, false, ◌&&◌, ◌||◌}
use mathlib.Core.Logic.{inl, inr}
use mathlib.Core.List.{List, [], ◌∷◌, ◌++◌}
use native.Mathlib.Omega.{arith}
use deadlocker.Base.Tests.{ltb, leb, ◌==◌, if◌then◌else◌, Bool-cases}
use deadlocker.Base.Lists.{Bytes, length}

-- UTF-8, for the characters below 2 ^ 16: no literal of the program has another.
unfoldable pub utf8 : ℕ → Bytes
utf8 c =
    if ltb c 128
    then c ∷ []
    else if ltb c 2048
    then (192 + c / 64) ∷ (128 + c % 64) ∷ []
    else (224 + c / 4096) ∷ (128 + c / 64 % 64) ∷ (128 + c % 64) ∷ []

-- The bytes of a literal.
unfoldable pub str : String → Bytes
unfolding utf8
str String.[] = []
str (String.◌∷◌ c s) = utf8 (code c) ++ str s

-- `%d` of a number that is not negative. The fuel bounds the number of digits.
unfoldable pub decimal_fuel : ℕ → ℕ → Bytes
decimal_fuel zero n = []
decimal_fuel (suc f) n =
    let shorter = decimal_fuel f (n / 10) in
    if ltb n 10 then (48 + n) ∷ [] else shorter ++ ((48 + n % 10) ∷ [])

unfoldable pub decimal : ℕ → Bytes
unfolding decimal_fuel
decimal n = decimal_fuel (suc n) n

-- Reads decimal digits, most significant first.
pub decimal_value : ℕ → Bytes → ℕ
decimal_value acc [] = acc
decimal_value acc (c ∷ cs) = decimal_value (acc * 10 + (c - 48)) cs

decimal_value-append :
    (xs ys : Bytes) (acc : ℕ)
    → decimal_value acc (xs ++ ys) ≡ decimal_value (decimal_value acc xs) ys
unfolding decimal_value
decimal_value-append [] ys acc = refl
decimal_value-append (x ∷ xs) ys acc = decimal_value-append xs ys (acc * 10 + (x - 48))

decimal_value-decimal_fuel : (f n : ℕ) → n < f → decimal_value 0 (decimal_fuel f n) ≡ n
unfolding decimal_value decimal_fuel
decimal_value-decimal_fuel zero n h = elim h [ ]
decimal_value-decimal_fuel (suc f) n h = elim (Bool-cases (ltb n 10)) [
  | inl small ↦ rw small (omega arith)
  | inr large ↦
      rw large (rw decimal_value-append (ground (arith, decimal_value-decimal_fuel f (n / 10))))
]

-- The digits that are printed read back as the number.
pub decimal_value-decimal : (n : ℕ) → decimal_value 0 (decimal n) ≡ n
unfolding decimal
decimal_value-decimal n = decimal_value-decimal_fuel (suc n) n (omega arith)

zeros : ℕ → Bytes
zeros zero = []
zeros (suc n) = b'0' ∷ zeros n

-- `%0wd` of a number that is not negative.
unfoldable pub pad_zero : ℕ → ℕ → Bytes
unfolding decimal zeros
pad_zero w n = zeros (w - length (decimal n)) ++ decimal n

hex_digit : ℕ → ℕ
hex_digit d = if ltb d 10 then 48 + d else 87 + d

unfoldable pub hex_byte : ℕ → Bytes
unfolding hex_digit
hex_byte b = hex_digit (b / 16) ∷ hex_digit (b % 16) ∷ []

-- `hex.EncodeToString`.
unfoldable pub hex_string : Bytes → Bytes
unfolding hex_byte
hex_string [] = []
hex_string (b ∷ bs) = hex_byte b ++ hex_string bs

pub length-hex_string : (bs : Bytes) → length (hex_string bs) ≡ 2 * length bs
unfolding hex_string
length-hex_string [] = refl
length-hex_string (b ∷ bs) = omega (arith, length-hex_string bs)

-- The bytes of the white space rune (`unicode.IsSpace`, in UTF-8) that a string begins with, or 0.
-- No byte of such a rune but its first begins one, so a scan may go on byte by byte.
unfoldable pub space_width : Bytes → ℕ
space_width [] = 0
space_width (a ∷ []) = if (leb 9 a && leb a 13) || a == 32 then 1 else 0
space_width (a ∷ b ∷ []) =
    if (leb 9 a && leb a 13) || a == 32
    then 1
    else if a == 0xc2 && (b == 0x85 || b == 0xa0)
    then 2
    else 0
space_width (a ∷ b ∷ c ∷ _) =
    if (leb 9 a && leb a 13) || a == 32
    then 1
    else if a == 0xc2 && (b == 0x85 || b == 0xa0)
    then 2
    else if (a == 0xe1 && b == 0x9a && c == 0x80)
        || (a == 0xe2 && b == 0x80 && (leb 0x80 c && leb c 0x8a))
        || (a == 0xe2 && b == 0x80 && (c == 0xa8 || c == 0xa9 || c == 0xaf))
        || (a == 0xe2 && b == 0x81 && c == 0x9f)
        || (a == 0xe3 && b == 0x80 && c == 0x80)
    then 3
    else 0

-- The number counts the bytes left of the white space rune that the scan is in.
unfoldable pub trim_left_from : ℕ → Bytes → Bytes
unfolding space_width
trim_left_from _ [] = []
trim_left_from (suc k) (c ∷ cs) = trim_left_from k cs
trim_left_from zero (c ∷ cs) = elim (space_width (c ∷ cs)) [
  | zero ↦ c ∷ cs
  | suc k ↦ trim_left_from k cs
]

unfoldable pub all_space : Bytes → Bool
unfolding trim_left_from
all_space s = elim (trim_left_from 0 s) [ [] ↦ true | _ ∷ _ ↦ false ]

unfoldable pub trim_right : Bytes → Bytes
unfolding all_space
trim_right [] = []
trim_right (c ∷ cs) = let rest = trim_right cs in if all_space (c ∷ cs) then [] else c ∷ rest

-- `strings.TrimSpace`.
unfoldable pub trim_space : Bytes → Bytes
unfolding trim_left_from trim_right
trim_space s = trim_right (trim_left_from 0 s)

length-trim_left : (k : ℕ) (s : Bytes) → length (trim_left_from k s) ≤ length s
unfolding trim_left_from
length-trim_left zero [] = omega arith
length-trim_left (suc k) [] = omega arith
length-trim_left (suc k) (c ∷ cs) = omega (arith, length-trim_left k cs)
length-trim_left zero (c ∷ cs) =
    ground (arith, length-trim_left 0 cs, length-trim_left (space_width (c ∷ cs) - 1) cs)

length-trim_right : (s : Bytes) → length (trim_right s) ≤ length s
unfolding trim_right
length-trim_right [] = omega arith
length-trim_right (c ∷ cs) = ground (arith, length-trim_right cs)

pub length-trim_space : (s : Bytes) → length (trim_space s) ≤ length s
unfolding trim_space
length-trim_space s = omega (arith, length-trim_right (trim_left_from 0 s), length-trim_left 0 s)

flush : Bytes → List Bytes → List Bytes
flush [] rest = rest
flush (c ∷ cs) rest = (c ∷ cs) ∷ rest

-- `strings.Fields`; the second argument is the field that is being read.
unfoldable pub fields_from : ℕ → Bytes → Bytes → List Bytes
unfolding space_width flush
fields_from _ cur [] = flush cur []
fields_from (suc k) cur (c ∷ cs) = fields_from k cur cs
fields_from zero cur (c ∷ cs) = elim (space_width (c ∷ cs)) [
  | zero ↦ fields_from 0 (cur ++ (c ∷ [])) cs
  | suc k ↦ flush cur (fields_from k [] cs)
]

unfoldable pub fields : Bytes → List Bytes
unfolding fields_from
fields = fields_from 0 []

-- `strings.Join`.
unfoldable pub join : List Bytes → Bytes → Bytes
join [] sep = []
join (x ∷ []) sep = x
join (x ∷ y ∷ r) sep = x ++ sep ++ join (y ∷ r) sep

-- `strings.ToUpper`, as far as a test for an ASCII keyword sees it: besides the ASCII letters two
-- letters beyond ASCII (a dotless i and a long s) have an ASCII capital.
unfoldable pub to_upper : Bytes → Bytes
to_upper [] = []
to_upper (a ∷ []) = (if leb b'a' a && leb a b'z' then a - 32 else a) ∷ []
to_upper (a ∷ b ∷ r) =
    let once = to_upper (b ∷ r) in
    let twice = to_upper r in
    if a == 0xc4 && b == 0xb1
    then b'I' ∷ twice
    else if a == 0xc5 && b == 0xbf
    then b'S' ∷ twice
    else (if leb b'a' a && leb a b'z' then a - 32 else a) ∷ once
