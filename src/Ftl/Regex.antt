-- ===== src/Ftl/Regex.antt =====
-- ftl.go: the two regular expressions of the server, with Go's leftmost-first greedy matching. Each
-- function returns the groups of the first match.
use waveguide.Base.{ℕ, Option, none, some, List, [], ◌∷◌, ◌==◌, if◌then◌else◌}
use waveguide.Base.Text.{strip_prefix, span, is_digit, is_hex, ascii}

-- `CONNECT ([0-9]+) \$([0-9a-f]+)` at the front of the text. A run of digits ends at no space, so the
-- greedy choice is the only one.
abbrev pub hash_part : List ℕ → Option (List ℕ) → Option (List ℕ × List ℕ)
hash_part id none = none
hash_part id (some s) = elim ((span is_hex s).0) [ [] ↦ none | h ∷ hs ↦ some (id, h ∷ hs) ]

abbrev pub with_id : List ℕ × List ℕ → Option (List ℕ × List ℕ)
with_id ([], rest) = none
with_id (d ∷ ds, rest) = hash_part (d ∷ ds) (strip_prefix (ascii " $") rest)

abbrev pub id_part : Option (List ℕ) → Option (List ℕ × List ℕ)
id_part none = none
id_part (some s) = with_id (span is_digit s)

abbrev pub connect_here : List ℕ → Option (List ℕ × List ℕ)
connect_here s = id_part (strip_prefix (ascii "CONNECT ") s)

-- The leftmost match.
unfoldable pub match_connect : List ℕ → Option (List ℕ × List ℕ)
match_connect [] = none
match_connect (c ∷ s) = elim (connect_here (c ∷ s)) [ some m ↦ some m | none ↦ match_connect s ]

-- The last `: ` of a line that has a byte behind it.
abbrev pub split_last : List ℕ → Option (List ℕ × List ℕ)
split_last [] = none
split_last (c ∷ []) = none
split_last (c ∷ d ∷ []) = none
split_last (c ∷ d ∷ e ∷ s) = elim (split_last (d ∷ e ∷ s)) [
  | some (key, value) ↦ some (c ∷ key, value)
  | none ↦ if c == b':' then (if d == b' ' then some ([], e ∷ s) else none) else none
]

-- `(.+): (.+)` on a line: the first group is greedy and takes one byte at least.
abbrev pub attribute_line : List ℕ → Option (List ℕ × List ℕ)
attribute_line [] = none
attribute_line (c ∷ s) = elim (split_last s) [
  | some (key, value) ↦ some (c ∷ key, value)
  | none ↦ none
]

abbrev with_head : ℕ → List (List ℕ) → List (List ℕ)
with_head c [] = (c ∷ []) ∷ []
with_head c (line ∷ ls) = (c ∷ line) ∷ ls

-- The text cut at its newlines.
abbrev pub lines : List ℕ → List (List ℕ)
lines [] = [] ∷ []
lines (c ∷ s) = let ls = lines s in if c == b'\n' then [] ∷ ls else with_head c ls

abbrev pub first_match : List (List ℕ) → Option (List ℕ × List ℕ)
first_match [] = none
first_match (line ∷ ls) = elim (attribute_line line) [ some m ↦ some m | none ↦ first_match ls ]

-- `.` matches no newline: the match lies in the first line that has one.
unfoldable pub match_attribute : List ℕ → Option (List ℕ × List ℕ)
match_attribute s = first_match (lines s)
