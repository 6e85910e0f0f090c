-- ===== src/Ftl/Lines.antt =====
-- server.go: dropCR and scanCRLF, the split function of the control connection.
pub mod Chunks
use waveguide.Base.{
  ℕ, ◌+◌, ◌≡◌, ◌≢◌, refl, ap, Bool, false, Option, none, some, List, [], ◌∷◌, ◌++◌, arith, ◌==◌,
  ◌&&◌, if◌then◌else◌, length, All,
}

-- `dropCR`
unfoldable pub drop_cr : List ℕ → List ℕ
drop_cr [] = []
drop_cr (c ∷ []) = if c == b'\r' then [] else c ∷ []
drop_cr (c ∷ d ∷ bytes) = c ∷ drop_cr (d ∷ bytes)

-- What is in front of the first `\r\n`.
unfoldable pub before_crlf : List ℕ → Option (List ℕ)
before_crlf [] = none
before_crlf (c ∷ []) = none
before_crlf (c ∷ d ∷ bytes) =
    if c == b'\r' && d == b'\n'
    then some []
    else elim (before_crlf (d ∷ bytes)) [ none ↦ none | some line ↦ some (c ∷ line) ]

-- The advance and the token; `none` is a nil token.
unfoldable pub scan_crlf : List ℕ → Bool → ℕ × Option (List ℕ)
scan_crlf bytes at_eof = elim (before_crlf bytes) [
  | some line ↦ (length line + 2, some (drop_cr line))
  | none ↦
      if at_eof
      then elim bytes [ [] ↦ (0, none) | c ∷ rest ↦ (length (c ∷ rest), some (drop_cr (c ∷ rest))) ]
      else (0, none)
]

-- A message that the client can send: no carriage return stands in it.
abbrev pub IsLine : List ℕ → Type 0
IsLine line = All (λ c. c ≢ b'\r') line

before_crlf-append :
    (line rest : List ℕ) → IsLine line → before_crlf (line ++ b'\r' ∷ b'\n' ∷ rest) ≡ some line
unfolding before_crlf
before_crlf-append [] rest plain = refl
before_crlf-append (c ∷ []) rest (ne, plain) = ground arith
before_crlf-append (c ∷ d ∷ line) rest (ne, plain) =
    ground (arith, before_crlf-append (d ∷ line) rest plain)

drop_cr_lem : (line : List ℕ) → IsLine line → drop_cr line ≡ line
unfolding drop_cr
drop_cr_lem [] plain = refl
drop_cr_lem (c ∷ []) (ne, plain) = ground arith
drop_cr_lem (c ∷ d ∷ line) (ne, plain) = ap (λ l. c ∷ l) (drop_cr_lem (d ∷ line) plain)

-- A message that holds no carriage return is the token, whatever follows its `\r\n` and whether or not
-- the input ends there, and exactly the message and its end are consumed.
pub scan_crlf_line :
    (line rest : List ℕ) (at_eof : Bool)
    → IsLine line
    → scan_crlf (line ++ b'\r' ∷ b'\n' ∷ rest) at_eof ≡ (length line + 2, some line)
unfolding scan_crlf
scan_crlf_line line rest at_eof plain =
    rw (before_crlf-append line rest plain, drop_cr_lem line plain, scan_crlf) refl

before_crlf_short : (line : List ℕ) → IsLine line → before_crlf (line ++ b'\r' ∷ []) ≡ none
unfolding before_crlf
before_crlf_short [] plain = refl
before_crlf_short (c ∷ []) (ne, plain) = ground arith
before_crlf_short (c ∷ d ∷ line) (ne, plain) = ground (arith, before_crlf_short (d ∷ line) plain)

-- While only the `\r` of a message's end has come, more is asked for.
pub scan_crlf_half :
    (line : List ℕ) → IsLine line → scan_crlf (line ++ b'\r' ∷ []) false ≡ (0, none)
unfolding scan_crlf
scan_crlf_half line plain = rw (before_crlf_short line plain, scan_crlf) refl
