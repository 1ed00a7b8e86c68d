-- ===== src/Engine/Data/Key.antt =====
-- The keys that lock data and rows are compared by (engine/data.go).
use deadlocker.Base.{
  ℕ, ◌+◌, leb, ◌==◌, Bool, true, false, not, ◌&&◌, ◌||◌, List, [], ◌∷◌, ◌++◌, Bytes, length,
  bytes_eq, has_prefix, str, hex_string, to_upper, trim_space, if◌then◌else◌,
}

-- `strings.Contains`.
unfoldable pub contains_text : Bytes → Bytes → Bool
contains_text [] t = has_prefix [] t
contains_text (c ∷ s) t = has_prefix (c ∷ s) t || contains_text s t

-- `strings.EqualFold`, for texts whose letters are ASCII.
unfoldable pub equal_fold : Bytes → Bytes → Bool
equal_fold a b = bytes_eq (to_upper a) (to_upper b)

-- `strings.ToLower`, as far as a test for an ASCII word without `i` and `k` sees it.
unfoldable pub to_lower : Bytes → Bytes
to_lower [] = []
to_lower (c ∷ s) = (if leb b'A' c && leb c b'Z' then c + 32 else c) ∷ to_lower s

unfoldable pub names_supremum : Bytes → Bool
names_supremum s = contains_text (to_lower s) (str "supremum")

abbrev pub quote : ℕ
quote = 39

abbrev pub comma : ℕ
comma = 44

unfoldable pub starts_quote : Bytes → Bool
starts_quote [] = false
starts_quote (c ∷ s) = c == quote

unfoldable pub ends_quote : Bytes → Bool
ends_quote [] = false
ends_quote (c ∷ []) = c == quote
ends_quote (c ∷ d ∷ s) = ends_quote (d ∷ s)

-- Without its last byte.
unfoldable pub drop_last : Bytes → Bytes
drop_last [] = []
drop_last (c ∷ []) = []
drop_last (c ∷ d ∷ s) = c ∷ drop_last (d ∷ s)

-- `strings.ReplaceAll` of two quotes by one; the first argument says that the next byte is replaced
-- already.
unfoldable pub undouble : Bool → Bytes → Bytes
undouble skip [] = []
undouble true (c ∷ s) = undouble false s
undouble false (c ∷ s) = c ∷ undouble (c == quote && starts_quote s) s

unfoldable pub drop_first : Bytes → Bytes
drop_first [] = []
drop_first (c ∷ s) = s

unfoldable pub unquote_component : Bytes → Bytes
unquote_component s =
    let t = trim_space s in
    if leb 2 (length t) && starts_quote t && ends_quote t
    then undouble false (drop_last (drop_first t))
    else t

-- The loop of `SplitLockData`: whether the next byte was read already, whether the loop is inside quotes,
-- and the component so far.
unfoldable pub split_from : Bool → Bool → Bytes → Bytes → List Bytes
split_from skip quoted cur [] = unquote_component cur ∷ []
split_from true quoted cur (c ∷ s) = split_from false quoted cur s
split_from false quoted cur (c ∷ s) = elim (c == quote) [
  | true ↦
      let escaped = quoted && starts_quote s in
      split_from escaped (if escaped then quoted else not quoted)
        (cur ++ (if escaped then c ∷ c ∷ [] else c ∷ [])) s
  | false ↦ elim (c == comma && not quoted) [
    | true ↦ unquote_component cur ∷ split_from false quoted [] s
    | false ↦ split_from false quoted (cur ++ (c ∷ [])) s
  ]
]

unfoldable pub split_lock_data : Bytes → List Bytes
split_lock_data s =
    let t = trim_space s in
    if bytes_eq t [] || names_supremum t then [] else split_from false false [] t

-- `strings.TrimRight` of spaces.
unfoldable pub trim_spaces_right : Bytes → Bytes
trim_spaces_right [] = []
trim_spaces_right (c ∷ s) =
    let rest = trim_spaces_right s in if c == 32 && (length rest == 0) then [] else c ∷ rest

unfoldable pub component_matches : Bytes → Bytes → Bool
component_matches value lock =
    bytes_eq value lock
    || equal_fold lock (str "0x" ++ hex_string value)
    || bytes_eq (trim_spaces_right value) (trim_spaces_right lock)

unfoldable pub components_match : List Bytes → List Bytes → Bool
components_match (v ∷ vs) (l ∷ ls) = component_matches v l && components_match vs ls
components_match _ _ = true

unfoldable pub key_matches : List Bytes → List Bytes → Bool
key_matches row_key lock_key =
    if (length row_key == 0) || (length lock_key == 0)
    then false
    else components_match row_key lock_key
