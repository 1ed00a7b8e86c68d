-- ===== src/Engine/Data/Split.antt =====
-- Lock data split into the key's components (engine/data.go).
use deadlocker.Base.{
  ℕ, zero, suc, ◌+◌, ◌-◌, ◌≤◌, ◌==◌, ◌≡◌, ◌≢◌, refl, sym, ap, ◌∙◌, true, false, List, [], ◌∷◌, ◌++◌,
  append_assoc, Bytes, length, length-append, map, bytes_eq, str, space_width, trim_left_from,
  all_space, trim_right, trim_space, join, Bool-cases, inl, inr, if◌then◌else◌, arith,
}
use deadlocker.Engine.Data.Key.{
  quote, comma, names_supremum, starts_quote, ends_quote, drop_last, drop_first, undouble,
  unquote_component, split_from, split_lock_data,
}

-- How the server prints a string in lock data: in quotes, with its quotes doubled.
abbrev pub doubled : Bytes → Bytes
doubled [] = []
doubled (c ∷ s) = if c == quote then quote ∷ quote ∷ doubled s else c ∷ doubled s

abbrev pub quoted_text : Bytes → Bytes
quoted_text s = quote ∷ doubled s ++ (quote ∷ [])

-- No white space rune begins with a quote, or has one in it.
space_width-quote : (s : Bytes) → space_width (quote ∷ s) ≡ 0
unfolding space_width
space_width-quote [] = refl
space_width-quote (b ∷ []) = refl
space_width-quote (b ∷ c ∷ s) = refl

trim_left-quote : (s : Bytes) → trim_left_from 0 (quote ∷ s) ≡ quote ∷ s
unfolding trim_left_from
trim_left-quote s = rw (space_width-quote s, trim_left_from) refl

-- A white space rune ends before the quote that a text ends with.
space_width-last : (c : ℕ) (s : Bytes) → space_width (c ∷ s ++ (quote ∷ [])) ≤ length s + 1
unfolding space_width
space_width-last c [] = ground arith
space_width-last c (d ∷ []) = ground arith
space_width-last c (d ∷ e ∷ s) = ground arith

trim_left-last : (k : ℕ) (s : Bytes) → k ≤ length s → trim_left_from k (s ++ (quote ∷ [])) ≢ []
unfolding trim_left_from
trim_left-last zero [] le e = ground (arith, trim_left-quote [])
trim_left-last (suc k) [] le e = omega arith
trim_left-last (suc k) (c ∷ s) le e = trim_left-last k s (omega arith) e
trim_left-last zero (c ∷ s) le e =
    ground (arith, space_width-last c s, trim_left-last (space_width (c ∷ s ++ (quote ∷ [])) - 1) s)

not_all_space : (s : Bytes) → all_space (s ++ (quote ∷ [])) ≡ false
unfolding all_space
not_all_space s = ground (arith, trim_left-last 0 s (omega arith))

trim_right-quote : (s : Bytes) → trim_right (s ++ (quote ∷ [])) ≡ s ++ (quote ∷ [])
unfolding trim_right
trim_right-quote [] = ground (arith, not_all_space [])
trim_right-quote (c ∷ s) = ground (arith, not_all_space (c ∷ s), trim_right-quote s)

-- What is in quotes is not trimmed, and a space before it is.
trim_space-quoted : (s : Bytes) → trim_space (quote ∷ s ++ (quote ∷ [])) ≡ quote ∷ s ++ (quote ∷ [])
unfolding trim_space
trim_space-quoted s =
    ap trim_right (trim_left-quote (s ++ (quote ∷ []))) ∙ trim_right-quote (quote ∷ s)

space_width-space : (s : Bytes) → space_width (32 ∷ quote ∷ s) ≡ 1
unfolding space_width
space_width-space [] = refl
space_width-space (c ∷ s) = refl

trim_left-space : (s : Bytes) → trim_left_from 0 (32 ∷ quote ∷ s) ≡ quote ∷ s
unfolding trim_left_from
trim_left-space s = rw (space_width-space s, trim_left_from) (trim_left-quote s)

trim_space-spaced :
    (s : Bytes) → trim_space (32 ∷ quote ∷ s ++ (quote ∷ [])) ≡ quote ∷ s ++ (quote ∷ [])
unfolding trim_space
trim_space-spaced s =
    ap trim_right (trim_left-space (s ++ (quote ∷ []))) ∙ trim_right-quote (quote ∷ s)

undouble-doubled : (s : Bytes) → undouble false (doubled s) ≡ s
unfolding undouble starts_quote
undouble-doubled [] = refl
undouble-doubled (c ∷ s) = ground (arith, undouble-doubled s)

drop_last-quote : (s : Bytes) → drop_last (s ++ (quote ∷ [])) ≡ s
unfolding drop_last
drop_last-quote [] = refl
drop_last-quote (c ∷ []) = refl
drop_last-quote (c ∷ d ∷ s) = ap (◌∷◌ c) (drop_last-quote (d ∷ s))

ends_quote-last : (s : Bytes) → ends_quote (s ++ (quote ∷ [])) ≡ true
unfolding ends_quote
ends_quote-last [] = refl
ends_quote-last (c ∷ []) = refl
ends_quote-last (c ∷ d ∷ s) = ends_quote-last (d ∷ s)

unquote-quoted : (s v : Bytes) → trim_space s ≡ quoted_text v → unquote_component s ≡ v
unfolding unquote_component starts_quote drop_first
unquote-quoted s v e =
    rw (e, unquote_component, ends_quote-last (quote ∷ doubled v))
      (ground (
        arith,
        length-append (doubled v) (quote ∷ []),
        drop_last-quote (doubled v),
        undouble-doubled v,
      ))

-- Up to the quote that ends a component.
split-doubled :
    (cur s rest : Bytes)
    → starts_quote rest ≡ false
    → split_from false true cur (doubled s ++ (quote ∷ rest))
      ≡ split_from false false (cur ++ doubled s ++ (quote ∷ [])) rest
unfolding split_from starts_quote
split-doubled cur [] rest h = ground (arith, append_assoc cur [] (quote ∷ []), h)
split-doubled cur (c ∷ s) rest h = elim (Bool-cases (c == quote)) [
  | inl same ↦ ground (
    arith,
    same,
    split-doubled (cur ++ (quote ∷ quote ∷ [])) s rest h,
    append_assoc cur (quote ∷ quote ∷ []) (doubled s),
  )
  | inr differ ↦ ground (
    arith,
    differ,
    split-doubled (cur ++ (c ∷ [])) s rest h,
    append_assoc cur (c ∷ []) (doubled s),
  )
]

split-quoted :
    (pre v rest : Bytes)
    → starts_quote rest ≡ false
    → split_from false false pre (quote ∷ doubled v ++ (quote ∷ rest))
      ≡ split_from false false (pre ++ quoted_text v) rest
unfolding split_from starts_quote
split-quoted pre v rest h =
    split-doubled (pre ++ (quote ∷ [])) v rest h
    ∙ ap (λ cur. split_from false false cur rest)
        (ap (λ cur. cur ++ (quote ∷ [])) (append_assoc pre (quote ∷ []) (doubled v))
          ∙ append_assoc pre (quote ∷ doubled v) (quote ∷ []))

abbrev pub lock_text : List Bytes → Bytes
lock_text vs = join (map quoted_text vs) (str ", ")

-- One component, and the comma and the space behind it.
quoted_then :
    (v w : Bytes) (vs : List Bytes)
    → lock_text (v ∷ w ∷ vs) ≡ quote ∷ doubled v ++ (quote ∷ comma ∷ 32 ∷ lock_text (w ∷ vs))
unfolding join str
quoted_then v w vs = ap (◌∷◌ quote) (
    append_assoc (doubled v ++ (quote ∷ [])) (str ", ") (lock_text (w ∷ vs))
    ∙ append_assoc (doubled v) (quote ∷ []) (comma ∷ 32 ∷ lock_text (w ∷ vs)))

unquote-spaced : (v : Bytes) → unquote_component (32 ∷ quoted_text v) ≡ v
unquote-spaced v = unquote-quoted (32 ∷ quoted_text v) v (trim_space-spaced (doubled v))

split-all :
    (pre v : Bytes) (vs : List Bytes)
    → ((w : Bytes) → unquote_component (pre ++ quoted_text w) ≡ w)
    → split_from false false pre (lock_text (v ∷ vs)) ≡ v ∷ vs
unfolding split_from starts_quote join
split-all pre v [] h = split-quoted pre v [] refl ∙ ap (λ x. x ∷ []) (h v)
split-all pre v (w ∷ vs) h =
    ap (split_from false false pre) (quoted_then v w vs)
    ∙ split-quoted pre v (comma ∷ 32 ∷ lock_text (w ∷ vs)) refl
    ∙ ap (λ x. x ∷ split_from false false (32 ∷ []) (lock_text (w ∷ vs))) (h v)
    ∙ ap (◌∷◌ v) (split-all (32 ∷ []) w vs unquote-spaced)

-- A printed key is in quotes from end to end.
lock_text-quoted :
    (v : Bytes) (vs : List Bytes)
    → (mid : Bytes) × (lock_text (v ∷ vs) ≡ quote ∷ mid ++ (quote ∷ []))
unfolding join
lock_text-quoted v [] = (doubled v, refl)
lock_text-quoted v (w ∷ vs) =
    let (mid, e) = lock_text-quoted w vs in
    (
      doubled v ++ (quote ∷ comma ∷ 32 ∷ quote ∷ mid),
      quoted_then v w vs
          ∙ ap (λ t. quote ∷ doubled v ++ (quote ∷ comma ∷ 32 ∷ t)) e
          ∙ ap (◌∷◌ quote)
              (sym (append_assoc (doubled v) (quote ∷ comma ∷ 32 ∷ quote ∷ mid) (quote ∷ []))),
    )

-- Lock data that prints one string or more, each in quotes with its quotes doubled, and a comma and a
-- space between two of them, is split into these strings, whatever quotes, commas and spaces they have, as
-- long as the text does not name the supremum.
pub split_lock_data-lock_text :
    (v : Bytes) (vs : List Bytes)
    → names_supremum (lock_text (v ∷ vs)) ≡ false
    → split_lock_data (lock_text (v ∷ vs)) ≡ v ∷ vs
unfolding split_lock_data bytes_eq
split_lock_data-lock_text v vs named =
    let (mid, e) = lock_text-quoted v vs in
    let trimmed : trim_space (lock_text (v ∷ vs)) ≡ lock_text (v ∷ vs) =
      ap trim_space e ∙ trim_space-quoted mid ∙ sym e in
    let some_text : bytes_eq (lock_text (v ∷ vs)) [] ≡ false = ap (λ t. bytes_eq t []) e in
    rw (trimmed, split_lock_data, some_text, named)
      (split-all [] v vs (λ w. unquote-quoted (quoted_text w) w (trim_space-quoted (doubled w))))
