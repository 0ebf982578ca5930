-- ===== src/Parser/Words.antt =====
-- Lines, words and trimming on a text that is written piece by piece.
use ip_finder.Common.{
  ℕ, Bool, true, false, ◌&&◌, [], ◌∷◌, ◌++◌, ◌≡◌, ◌≢◌, refl, ◌==◌, if◌then◌else◌, is_empty, All,
  arith, sym, ◌∙◌, Bool-cases, inl, inr,
}
use ip_finder.Common.Bytes.{Bytes, strip_start, strip_end}
use ip_finder.Parser.Text.{is_space, is_trimmed, trim, cons_head, lines, ends_word, words}

abbrev pub NoNewline : Bytes → Type 0
NoNewline = All (λ c. (c == b'\n') ≡ false)

abbrev pub NoSpace : Bytes → Type 0
NoSpace = All (λ c. is_space c ≡ false)

pub lines-append : (l rest : Bytes) → NoNewline l → lines (l ++ b'\n' ∷ rest) ≡ l ∷ lines rest
unfolding lines
lines-append [] rest h = refl
lines-append (c ∷ l) rest h = rw h.0 (rw (lines-append l rest h.1))

ends_word-cons : (c : ℕ) (cs : Bytes) → ends_word (c ∷ cs) ≡ is_space c
unfolding ends_word
ends_word-cons c cs = refl

words-cons :
    (c : ℕ) (cs : Bytes)
    → words (c ∷ cs) ≡ (
        if is_space c
        then words cs
        else if ends_word cs
        then (c ∷ []) ∷ words cs
        else cons_head c (words cs))
unfolding words
words-cons c cs = refl

pub words-blank : (c : ℕ) (rest : Bytes) → is_space c ≡ true → words (c ∷ rest) ≡ words rest
words-blank c rest h = rw (words-cons c rest, h)

pub words-append :
    (w rest : Bytes)
    → w ≢ []
    → NoSpace w
    → ends_word rest ≡ true
    → words (w ++ rest) ≡ w ∷ words rest
words-append [] rest ne h e = absurd (ne refl)
words-append (c ∷ []) rest ne h e = rw (words-cons c rest, h.0, e)
words-append (c ∷ d ∷ w) rest ne h e = ground (
  arith,
  words-cons c (d ∷ w ++ rest),
  ends_word-cons d (w ++ rest),
  words-append (d ∷ w) rest (λ p. cc) h.1 e,
)

words-strip_start :
    (p : ℕ → Bool) (s : Bytes)
    → ((c : ℕ) → p c ≡ true → is_space c ≡ true)
    → words (strip_start p s) ≡ words s
unfolding strip_start
words-strip_start p [] sp = refl
words-strip_start p (c ∷ s) sp = elim (Bool-cases (p c)) [
  | inl y ↦ rw y (words-strip_start p s sp ∙ sym (words-blank c s (sp c y)))
  | inr n ↦ rw n
]

strip_end-cons :
    (p : ℕ → Bool) (c : ℕ) (cs : Bytes)
    → strip_end p (c ∷ cs) ≡ (if p c && is_empty (strip_end p cs) then [] else c ∷ strip_end p cs)
unfolding strip_end
strip_end-cons p c cs = refl

ends_word-strip_end :
    (p : ℕ → Bool) (s : Bytes)
    → ((c : ℕ) → p c ≡ true → is_space c ≡ true)
    → ends_word (strip_end p s) ≡ ends_word s
unfolding strip_end ends_word
ends_word-strip_end p [] sp = refl
ends_word-strip_end p (c ∷ s) sp = ground (arith, sp c)

words-nil : words [] ≡ []
unfolding words
words-nil = refl

words-strip_end :
    (p : ℕ → Bool) (s : Bytes)
    → ((c : ℕ) → p c ≡ true → is_space c ≡ true)
    → words (strip_end p s) ≡ words s
words-strip_end p [] sp = unfold strip_end in refl
words-strip_end p (c ∷ s) sp = ground (
  arith,
  sp c,
  words-nil,
  strip_end-cons p c s,
  words-cons c s,
  words-cons c (strip_end p s),
  ends_word-strip_end p s sp,
  words-strip_end p s sp,
)

pub words-trim : (s : Bytes) → words (trim s) ≡ words s
unfolding trim is_space
words-trim s =
    words-strip_end is_trimmed (strip_start is_trimmed s) (λ c h. ground arith)
    ∙ words-strip_start is_trimmed s (λ c h. ground arith)
