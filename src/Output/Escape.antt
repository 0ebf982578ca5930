-- ===== src/Output/Escape.antt =====
-- A reader of JSON strings, against `json_escape`.
use ip_finder.Common.{
  ℕ, zero, suc, ◌+◌, ◌-◌, ◌*◌, ◌/◌, ◌%◌, ◌<◌, ◌≡◌, refl, ◌∙◌, ap, [], ◌∷◌, ◌++◌, ◌==◌, ==_iff, ltb,
  leb, ltb→lt, if◌then◌else◌, Option, none, some, arith, Bool-cases, inl, inr,
}
use mathlib.Core.List.{append_assoc}
use ip_finder.Common.Bytes.{Bytes, hex_digit}
use ip_finder.Output.{escaped, json_escape}

-- Where a reader stands in a string: between characters, behind a backslash, or in front of the
-- last digits of a `\u` escape, with the value of the digits before.
pub data Mode : Type 0 where
  plain : Mode
  after_backslash : Mode
  in_hex : ℕ → ℕ → Mode

abbrev pub hex_value : ℕ → ℕ
hex_value c = if leb c b'9' then c - b'0' else c - b'a' + 10

-- What a short escape stands for.
abbrev pub short_escape : ℕ → ℕ
short_escape c =
    if c == b'n' then b'\n' else if c == b'r' then b'\r' else if c == b't' then b'\t' else c

abbrev pub push_char : ℕ → Option (Bytes × Bytes) → Option (Bytes × Bytes)
push_char c none = none
push_char c (some (value, rest)) = some (c ∷ value, rest)

-- A string up to its closing quote, as RFC 8259 reads it below U+0100, and what follows; `none`
-- where it does not end, or holds a control character.
unfoldable pub read_string : Mode → Bytes → Option (Bytes × Bytes)
read_string mode [] = none
read_string plain (c ∷ cs) =
    let next = read_string plain cs in
    let escape = read_string after_backslash cs in
    if c == b'"'
    then some ([], cs)
    else if c == b'\\'
    then escape
    else if ltb c 0x20
    then none
    else push_char c next
read_string after_backslash (c ∷ cs) =
    let next = read_string plain cs in
    let digits = read_string (in_hex 3 0) cs in
    if c == b'u' then digits else push_char (short_escape c) next
read_string (in_hex zero value) (c ∷ cs) =
    push_char (value * 16 + hex_value c) (read_string plain cs)
read_string (in_hex (suc k) value) (c ∷ cs) = read_string (in_hex k (value * 16 + hex_value c)) cs

hex_value-hex_digit : (n : ℕ) → n < 16 → hex_value (hex_digit n) ≡ n
hex_value-hex_digit n h = ground arith

-- Two hexadecimal digits behind two zeros.
read_string-hex :
    (c : ℕ) (t : Bytes)
    → c < 32
    → read_string (in_hex 3 0) (b'0' ∷ b'0' ∷ hex_digit (c / 16) ∷ hex_digit (c % 16) ∷ t)
      ≡ push_char c (read_string plain t)
unfolding read_string
read_string-hex c t h =
    let v : (0 + c / 16) * 16 + c % 16 ≡ c = omega arith in
    rw (hex_value-hex_digit (c / 16) (omega arith), hex_value-hex_digit (c % 16) (omega arith))
      (rw v refl)

read_string-escaped :
    (c : ℕ) (t : Bytes) → read_string plain (escaped c ++ t) ≡ push_char c (read_string plain t)
unfolding read_string escaped
read_string-escaped c t = elim (Bool-cases (c == b'"')) [
  | inl e ↦ let v = (==_iff c b'"').0 e in rw v refl
  | inr n1 ↦ elim (Bool-cases (c == b'\\')) [
    | inl e ↦ let v = (==_iff c b'\\').0 e in rw v refl
    | inr n2 ↦ elim (Bool-cases (c == b'\n')) [
      | inl e ↦ let v = (==_iff c b'\n').0 e in rw v refl
      | inr n3 ↦ elim (Bool-cases (c == b'\r')) [
        | inl e ↦ let v = (==_iff c b'\r').0 e in rw v refl
        | inr n4 ↦ elim (Bool-cases (c == b'\t')) [
          | inl e ↦ let v = (==_iff c b'\t').0 e in rw v refl
          | inr n5 ↦ elim (Bool-cases (ltb c 0x20)) [
            | inl small ↦ rw (n1, n2, n3, n4, n5, small) (read_string-hex c t (ltb→lt c 32 small))
            | inr large ↦ rw (n1, n2, n3, n4, n5, large) (rw (n1, n2, large) refl)
          ]
        ]
      ]
    ]
  ]
]

-- Whatever the bytes of a value, its escaped form, with a closing quote and any text behind it, is
-- read as exactly the value: no byte of it ends the string early or is lost.
pub read_string-json_escape :
    (value rest : Bytes)
    → read_string plain (json_escape value ++ (b'"' ∷ rest)) ≡ some (value, rest)
unfolding json_escape
read_string-json_escape [] rest = unfold read_string in refl
read_string-json_escape (c ∷ value) rest =
    ap (read_string plain) (append_assoc (escaped c) (json_escape value) (b'"' ∷ rest))
    ∙ read_string-escaped c (json_escape value ++ (b'"' ∷ rest))
    ∙ ap (push_char c) (read_string-json_escape value rest)
