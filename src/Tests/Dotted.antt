-- ===== src/Tests/Dotted.antt =====
-- A concrete address conversion in dotted decimal, which has the documented properties.
use ip_finder.Common.{
  All, ℕ, ◌+◌, ◌-◌, ◌*◌, ◌/◌, ◌%◌, ◌<◌, ◌≡◌, refl, Bool, false, ◌&&◌, Option, none, some, [], ◌∷◌,
  ltb, leb, ◌==◌, if◌then◌else◌, arith, Bool-cases, inl, inr, ltb→lt, lt→ltb, ◌∙◌, ap,
}
use ip_finder.Common.Bytes.{Bytes, codes}
use ip_finder.Inet.{Inet, IsInet}

abbrev digit : ℕ → ℕ
digit n = 48 + n

-- `%u` below 256, in front of a rest
unfoldable pub print_octet : ℕ → Bytes → Bytes
print_octet n rest =
    if ltb n 10
    then digit n ∷ rest
    else if ltb n 100
    then digit (n / 10) ∷ digit (n % 10) ∷ rest
    else digit (n / 100) ∷ digit (n / 10 % 10) ∷ digit (n % 10) ∷ rest

abbrev starts_digit : Bytes → Bool
starts_digit [] = false
starts_digit (c ∷ cs) = leb 48 c && leb c 57

-- A number of at most three digits and at most 255.
octet_from : ℕ → ℕ → Bytes → Option (ℕ × Bytes)
octet_from acc left [] = some (acc, [])
octet_from acc left (c ∷ cs) =
    let more = octet_from (acc * 10 + (c - 48)) (left - 1) cs in
    if leb 48 c && leb c 57
    then (if ltb 0 left && leb (acc * 10 + (c - 48)) 255 then more else none)
    else some (acc, c ∷ cs)

parse_octet : Bytes → Option (ℕ × Bytes)
unfolding octet_from
parse_octet s = if starts_digit s then octet_from 0 3 s else none

abbrev dotted_text : ℕ → Bytes
dotted_text a = print_octet (a / 16777216) (
    b'.'
    ∷ print_octet (a / 65536 % 256)
        (b'.' ∷ print_octet (a / 256 % 256) (b'.' ∷ print_octet (a % 256) [])))

abbrev after_dot : Bytes → Option Bytes
after_dot [] = none
after_dot (c ∷ cs) = if c == b'.' then some cs else none

infixl 5 ◌>>=◌
abbrev ◌>>=◌ : {A B : Type 0} → Option A → (A → Option B) → Option B
none >>= f = none
some a >>= f = f a

abbrev at_end : ℕ → Bytes → Option ℕ
at_end a [] = some a
at_end a (c ∷ cs) = none

read_dotted : Bytes → Option ℕ
unfolding parse_octet
read_dotted s = do
  (a, s1) ← parse_octet s
  s2 ← after_dot s1
  (b, s3) ← parse_octet s2
  s4 ← after_dot s3
  (c, s5) ← parse_octet s4
  s6 ← after_dot s5
  (d, s7) ← parse_octet s6
  at_end (a * 16777216 + b * 65536 + c * 256 + d) s7

unfoldable pub dotted : Inet
unfolding read_dotted print_octet
dotted = record {
  pton = read_dotted;
  ntop = λ a. if ltb a 4294967296 then some (dotted_text a) else none;
}

octet_from-end :
    (acc left : ℕ) (rest : Bytes)
    → starts_digit rest ≡ false
    → octet_from acc left rest ≡ some (acc, rest)
unfolding octet_from
octet_from-end acc left [] h = refl
octet_from-end acc left (c ∷ cs) h = ground arith

octet_from-digit :
    (acc left d : ℕ) (rest : Bytes)
    → d < 10
    → 0 < left
    → acc * 10 + d < 256
    → octet_from acc left (digit d ∷ rest) ≡ octet_from (acc * 10 + d) (left - 1) rest
unfolding octet_from
octet_from-digit acc left d rest h k m =
    let e : 48 + d - 48 ≡ d = omega arith in rw e (ground arith)

print1 :
    (n : ℕ) (rest : Bytes)
    → n < 10
    → starts_digit rest ≡ false
    → parse_octet (print_octet n rest) ≡ some (n, rest)
unfolding parse_octet print_octet
print1 n rest h e = ground (arith, octet_from-digit 0 3 n rest, octet_from-end (0 * 10 + n) 2 rest)

parse_octet-digit :
    (d : ℕ) (rest : Bytes) → d < 10 → parse_octet (digit d ∷ rest) ≡ octet_from d 2 rest
unfolding parse_octet
parse_octet-digit d rest h =
    let e : 0 * 10 + d ≡ d = omega arith in
    ground (arith, octet_from-digit 0 3 d rest, ap (λ (n : ℕ). octet_from n 2 rest) e)

print2 :
    (n : ℕ) (rest : Bytes)
    → ltb n 10 ≡ false
    → n < 100
    → starts_digit rest ≡ false
    → parse_octet (print_octet n rest) ≡ some (n, rest)
unfolding print_octet
print2 n rest g h e =
    let v : n / 10 * 10 + n % 10 ≡ n = omega arith in
    rw (g, lt→ltb n 100 h)
      (parse_octet-digit (n / 10) (digit (n % 10) ∷ rest) (omega arith)
        ∙ octet_from-digit (n / 10) 2 (n % 10) rest (omega arith) (omega arith) (omega arith)
        ∙ octet_from-end (n / 10 * 10 + n % 10) 1 rest e
        ∙ rw v)

print3 :
    (n : ℕ) (rest : Bytes)
    → ltb n 100 ≡ false
    → n < 256
    → starts_digit rest ≡ false
    → parse_octet (print_octet n rest) ≡ some (n, rest)
unfolding print_octet
print3 n rest g h e =
    let v : (n / 100 * 10 + n / 10 % 10) * 10 + n % 10 ≡ n = omega arith in
    let w : ltb n 10 ≡ false = ground arith in
    rw (w, g)
      (parse_octet-digit (n / 100) _ (omega arith)
        ∙ octet_from-digit (n / 100) 2 (n / 10 % 10) _ (omega arith) (omega arith) (ground arith)
        ∙ octet_from-digit _ 1 (n % 10) rest (omega arith) (omega arith) (omega arith)
        ∙ octet_from-end _ 0 rest e
        ∙ rw v)

parse_octet-print_octet :
    (n : ℕ) (rest : Bytes)
    → n < 256
    → starts_digit rest ≡ false
    → parse_octet (print_octet n rest) ≡ some (n, rest)
parse_octet-print_octet n rest h e = elim (Bool-cases (ltb n 10)) [
  | inl one ↦ print1 n rest (ltb→lt n 10 one) e
  | inr more ↦ elim (Bool-cases (ltb n 100)) [
    | inl two ↦ print2 n rest more (ltb→lt n 100 two) e
    | inr three ↦ print3 n rest three h e
  ]
]

read_dotted-text : (a : ℕ) → a < 4294967296 → read_dotted (dotted_text a) ≡ some a
unfolding read_dotted
read_dotted-text a h =
    let v : a / 16777216 * 16777216 + a / 65536 % 256 * 65536 + a / 256 % 256 * 256 + a % 256 ≡ a =
      omega arith in
    rw
      (
        parse_octet-print_octet (a / 16777216) _ (omega arith) refl,
        parse_octet-print_octet (a / 65536 % 256) _ (omega arith) refl,
        parse_octet-print_octet (a / 256 % 256) _ (omega arith) refl,
        parse_octet-print_octet (a % 256) [] (omega arith) refl,
      )
      (rw v)

octet_from-lt :
    (acc left : ℕ) (s : Bytes) (n : ℕ) (rest : Bytes)
    → acc < 256
    → octet_from acc left s ≡ some (n, rest)
    → n < 256
unfolding octet_from
octet_from-lt acc left [] n rest h e = ground arith
octet_from-lt acc left (c ∷ cs) n rest h e =
    ground (arith, octet_from-lt (acc * 10 + (c - 48)) (left - 1) cs n rest)

parse_octet-lt : (s : Bytes) (n : ℕ) (rest : Bytes) → parse_octet s ≡ some (n, rest) → n < 256
unfolding parse_octet
parse_octet-lt s n rest e = ground (arith, octet_from-lt 0 3 s n rest)

>>=-eq-some :
    {A B : Type 0} (m : Option A) (f : A → Option B) {b : B}
    → (m >>= f) ≡ some b
    → (a : A) × (m ≡ some a) × (f a ≡ some b)
>>=-eq-some none f h = cc
>>=-eq-some (some a) f h = (a, refl, h)

at_end-eq : (a : ℕ) (s : Bytes) (n : ℕ) → at_end a s ≡ some n → a ≡ n
at_end-eq a [] n e = ground arith
at_end-eq a (c ∷ cs) n e = cc

read_dotted-lt : (t : Bytes) (a : ℕ) → read_dotted t ≡ some a → a < 4294967296
unfolding read_dotted
read_dotted-lt t n e =
    let (p, ep, e) = >>=-eq-some (parse_octet t) _ e in
    let (s2, _, e) = >>=-eq-some (after_dot p.1) _ e in
    let (q, eq, e) = >>=-eq-some (parse_octet s2) _ e in
    let (s4, _, e) = >>=-eq-some (after_dot q.1) _ e in
    let (r, er, e) = >>=-eq-some (parse_octet s4) _ e in
    let (s6, _, e) = >>=-eq-some (after_dot r.1) _ e in
    let (u, eu, e) = >>=-eq-some (parse_octet s6) _ e in
    omega (
      arith,
      parse_octet-lt t p.0 p.1 ep,
      parse_octet-lt s2 q.0 q.1 eq,
      parse_octet-lt s4 r.0 r.1 er,
      parse_octet-lt s6 u.0 u.1 eu,
      at_end-eq _ u.1 n e,
    )

dotted_back : (a : ℕ) (t : Bytes) → a < 4294967296 → dotted.ntop a ≡ some t → dotted.pton t ≡ some a
unfolding dotted
dotted_back a t h e = ground (arith, read_dotted-text a h)

print_octet-no_zero :
    (n : ℕ) (rest : Bytes)
    → All (λ c. (c == 0) ≡ false) rest
    → All (λ c. (c == 0) ≡ false) (print_octet n rest)
unfolding print_octet
print_octet-no_zero n rest h = ground arith

text_zero_free : (a : ℕ) → All (λ c. (c == 0) ≡ false) (dotted_text a)
text_zero_free a = print_octet-no_zero (a / 16777216) _ (
  refl,
  print_octet-no_zero (a / 65536 % 256) _
      (refl, print_octet-no_zero (a / 256 % 256) _ (refl, print_octet-no_zero (a % 256) [] tt)),
)

dotted_zero_free : (a : ℕ) (t : Bytes) → dotted.ntop a ≡ some t → All (λ c. (c == 0) ≡ false) t
unfolding dotted
dotted_zero_free a t h = ground (arith, text_zero_free a)

pub dotted-IsInet : IsInet dotted
unfolding dotted
dotted-IsInet = record {
  ntop_total = λ a h. (dotted_text a, rw (lt→ltb a 4294967296 h));
  pton-ntop = λ a t h e. dotted_back a t h e;
  pton-lt = read_dotted-lt;
  pton-nil = refl;
  ntop-no_zero = dotted_zero_free;
}

reads : dotted.pton (codes "192.168.10.50") ≡ some 3232238130
unfolding dotted
reads = refl

writes : dotted.ntop 3232238130 ≡ some (codes "192.168.10.50")
unfolding dotted
writes = refl
