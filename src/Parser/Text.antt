-- ===== src/Parser/Text.antt =====
-- parser/ifconfig_parser.cpp: trimming, names, and the reading of lines and tokens from a stream.
-- `std::getline` in a loop is the list of lines, `>>` in a loop is the list of words.
use ip_finder.Common.{ℕ, Bool, true, ◌&&◌, ◌||◌, List, [], ◌∷◌, ◌==◌, leb, if◌then◌else◌}
use ip_finder.Common.Bytes.{strip_start, strip_end, Bytes, before}

-- `std::isspace` in the "C" locale, which `>>` skips too
unfoldable pub is_space : ℕ → Bool
is_space c = c == b' ' || (leb 9 c && leb c 13)

-- one of " \t\r\n"
unfoldable pub is_trimmed : ℕ → Bool
is_trimmed c = c == b' ' || c == b'\t' || c == b'\r' || c == b'\n'

-- `std::isdigit`
unfoldable pub is_digit : ℕ → Bool
is_digit c = leb b'0' c && leb c b'9'

unfoldable pub trim : Bytes → Bytes
unfolding strip_start strip_end is_trimmed
trim s = strip_end is_trimmed (strip_start is_trimmed s)

unfoldable pub pop_colon : Bytes → Bytes
pop_colon [] = []
pop_colon (c ∷ []) = if c == b':' then [] else c ∷ []
pop_colon (c ∷ d ∷ r) = c ∷ pop_colon (d ∷ r)

unfoldable pub normalize_name : Bytes → Bytes
unfolding pop_colon before
normalize_name name = before b'@' (pop_colon name)

abbrev pub cons_head : ℕ → List Bytes → List Bytes
cons_head c [] = (c ∷ []) ∷ []
cons_head c (l ∷ ls) = (c ∷ l) ∷ ls

-- Text after the last newline is a line too, unless it is empty.
unfoldable pub lines : Bytes → List Bytes
lines [] = []
lines (c ∷ cs) = let rest = lines cs in if c == b'\n' then [] ∷ rest else cons_head c rest

-- At the end of a word: the text ends, or a blank follows.
unfoldable pub ends_word : Bytes → Bool
unfolding is_space
ends_word [] = true
ends_word (c ∷ cs) = is_space c

unfoldable pub words : Bytes → List Bytes
unfolding is_space ends_word
words [] = []
words (c ∷ cs) =
    let rest = words cs in
    if is_space c then rest else if ends_word cs then (c ∷ []) ∷ rest else cons_head c rest

-- A variable that `>>` does not reach stays empty.
unfoldable pub word_at : List Bytes → Bytes
word_at [] = []
word_at (w ∷ ws) = w

abbrev pub rest_of : List Bytes → List Bytes
rest_of [] = []
rest_of (w ∷ ws) = ws
