-- ===== src/Ftl/Lines/Chunks.antt =====
-- server.go: the lines of a control connection are the same however the client's bytes arrive.
use waveguide.Base.{
  ℕ, zero, suc, ◌+◌, ◌<◌, ◌≤◌, ◌≡◌, refl, ap, ◌∙◌, ◌⊎◌, inl, inr, Bool, true, false, Option, none,
  some, List, [], ◌∷◌, ◌++◌, arith, length, drop, leb, All, lt→leb_false, length-append,
  append_assoc, returns,
}
use waveguide.Base.Slice.{Slice}
use waveguide.Scanner.{Split, SplitFunc, Read, Events, token, ends, eof, drain, scan, skip, receive}
use waveguide.Scanner.Laws.{drain_token, drain_more}
use waveguide.Ftl.Lines.{scan_crlf, before_crlf, IsLine, scan_crlf_line}

-- A token is read as a string, so what lies behind it does not matter.
abbrev pub line_token : List ℕ → Slice
line_token line = record { elems = line; spare = [] }

abbrev pub crlf_result : ℕ → Option (List ℕ) → Split
crlf_result n none = record { advance = n; token = none }
crlf_result n (some line) = record { advance = n; token = some (line_token line) }

-- `scanCRLF` as the scanner calls it.
abbrev pub split_crlf : SplitFunc
split_crlf s at_eof =
    returns (crlf_result (scan_crlf s.elems at_eof).0 (scan_crlf s.elems at_eof).1)

-- What a client sends for its lines.
abbrev pub wire : List (List ℕ) → List ℕ
wire [] = []
wire (l ∷ ls) = l ++ b'\r' ∷ b'\n' ∷ wire ls

abbrev pub received : List Read → List ℕ
received [] = []
received (r ∷ rs) = r.bytes ++ received rs

-- The lines, one token to each, and the end of the input.
abbrev pub line_events : List (List ℕ) → Events
line_events [] = ends eof
line_events (l ∷ ls) = token (line_token l) (line_events ls)

-- A message that the scanner's buffer holds with its end.
abbrev pub IsMessage : List ℕ → Type 0
IsMessage line = IsLine line × (length line ≤ 65534)

-- A buffer of that many bytes does not hold the first line and its end.
abbrev Short : ℕ → List (List ℕ) → Type 0
Short n [] = n ≡ 0
Short n (l ∷ ls) = n < length l + 2

-- Of a line and its end the buffer holds a part, in which no end is found, or all.
before_crlf_cases :
    (s rest l w : List ℕ)
    → IsLine l
    → s ++ rest ≡ l ++ b'\r' ∷ b'\n' ∷ w
    → ((before_crlf s ≡ none) × (length s < length l + 2))
      ⊎ ((t : List ℕ) × (s ≡ l ++ b'\r' ∷ b'\n' ∷ t) × (t ++ rest ≡ w))
unfolding before_crlf
before_crlf_cases [] rest l w plain e = inl (refl, omega arith)
before_crlf_cases (c ∷ []) rest [] w plain e = inl (refl, omega arith)
before_crlf_cases (c ∷ d ∷ s) rest [] w plain e = inr (s, ground arith, ground arith)
before_crlf_cases (c ∷ s) rest (x ∷ l) w (ne, plain) e =
    let tail : s ++ rest ≡ l ++ b'\r' ∷ b'\n' ∷ w = ground arith in
    let first : c ≡ x = ground arith in
    elim (before_crlf_cases s rest l w plain tail) [
      | inl (none_there, short) ↦ inl (behind s none_there, omega arith)
      | inr (t, here, there) ↦ inr (t, rw (first, here) refl, there)
    ]
  where
    behind : (s : List ℕ) → before_crlf s ≡ none → before_crlf (c ∷ s) ≡ none
    behind [] none_there = refl
    behind (d ∷ s) none_there = ground (arith, none_there)

drop_wire : (l t : List ℕ) → drop (length l + 2) (l ++ b'\r' ∷ b'\n' ∷ t) ≡ t
drop_wire [] t = refl
drop_wire (c ∷ l) t =
    let size : suc (length l) + 2 ≡ suc (length l + 2) = omega arith in
    ap (λ n. drop n (c ∷ l ++ b'\r' ∷ b'\n' ∷ t)) size ∙ drop_wire l t

split_line :
    (s : Slice) (l t : List ℕ) (at_eof : Bool)
    → IsLine l
    → s.elems ≡ l ++ b'\r' ∷ b'\n' ∷ t
    → split_crlf s at_eof ≡ returns (record { advance = length l + 2; token = some (line_token l) })
split_line s l t at_eof plain here =
    ap (λ q. returns (crlf_result q.0 q.1))
      (ap (λ bytes. scan_crlf bytes at_eof) here ∙ scan_crlf_line l t at_eof plain)

scan_crlf_part : (bytes : List ℕ) → before_crlf bytes ≡ none → scan_crlf bytes false ≡ (0, none)
unfolding scan_crlf
scan_crlf_part bytes none_there = rw (none_there, scan_crlf) refl

drain_empty :
    (split : SplitFunc) (fuel : ℕ) (s : Slice) (more : Slice → Events)
    → length s.elems ≡ 0
    → drain split false (suc fuel) s more ≡ more s
unfolding drain
drain_empty split fuel s more empty = ground arith

drain_part :
    (fuel : ℕ) (s : Slice) (more : Slice → Events)
    → before_crlf s.elems ≡ none
    → drain split_crlf false (suc fuel) s more ≡ more s
drain_part fuel s more none_there = by_length (length s.elems) refl
  where
    by_length : (n : ℕ) → length s.elems ≡ n → drain split_crlf false (suc fuel) s more ≡ more s
    by_length zero empty = drain_empty split_crlf fuel s more empty
    by_length (suc n) some_data =
        drain_more split_crlf false fuel s more 0
          (ap (λ q. returns (crlf_result q.0 q.1)) (scan_crlf_part s.elems none_there))
          (omega arith) (omega arith)

front_empty : (front rest : List ℕ) → front ++ rest ≡ [] → front ≡ []
front_empty [] rest e = refl
front_empty (c ∷ front) rest e = absurd (ground arith)

-- The whole lines of a buffer are the tokens that come first; `more` has the rest.
drain_lines :
    (fuel : ℕ) (s : Slice) (rest : List ℕ) (lines : List (List ℕ)) (more : Slice → Events)
    → length s.elems < fuel
    → All IsMessage lines
    → s.elems ++ rest ≡ wire lines
    → ((s' : Slice) (lines' : List (List ℕ))
        → s'.elems ++ rest ≡ wire lines'
        → Short (length s'.elems) lines'
        → All IsMessage lines'
        → more s' ≡ line_events lines')
    → drain split_crlf false fuel s more ≡ line_events lines
drain_lines zero s rest lines more few plain e after = absurd (omega arith)
drain_lines (suc fuel) s rest [] more few plain e after =
    let empty : s.elems ≡ [] = front_empty s.elems rest e in
    let none_left = ap length empty in
    drain_empty split_crlf fuel s more none_left ∙ after s [] e none_left tt
drain_lines (suc fuel) s rest (l ∷ ls) more few ((plain, fits), plains) e after =
    elim (before_crlf_cases s.elems rest l (wire ls) plain e) [
      | inl (none_there, short) ↦
          drain_part fuel s more none_there ∙ after s (l ∷ ls) e short ((plain, fits), plains)
      | inr (t, here, there) ↦
          let size = ap length here ∙ length-append l (b'\r' ∷ b'\n' ∷ t) in
          let left = ap (drop (length l + 2)) here ∙ drop_wire l t in
          let left_size = ap length left in
          drain_token split_crlf false fuel s more (length l + 2) (line_token l)
            (split_line s l t false plain here) (omega arith) (omega arith)
          ∙ ap (token (line_token l)) (
              drain_lines fuel (skip (length l + 2) s) rest ls more (omega arith) plains
                (ap (λ bytes. bytes ++ rest) left ∙ there) after)
    ]

drain_at_end :
    (s : Slice) (more : Slice → Events)
    → s.elems ≡ []
    → ((s' : Slice) → more s' ≡ ends eof)
    → drain split_crlf true (suc (length s.elems)) s more ≡ ends eof
unfolding drain scan_crlf before_crlf
drain_at_end s more empty after = rw empty (after _)

-- With all the input in the buffer no part of a line is left.
no_part :
    (bytes : List ℕ) (lines : List (List ℕ))
    → bytes ++ [] ≡ wire lines
    → Short (length bytes) lines
    → (bytes ≡ []) × (lines ≡ [])
no_part bytes [] e short = (front_empty bytes [] e, refl)
no_part bytes (l ∷ ls) e short =
    let size = ap length e ∙ length-append l (b'\r' ∷ b'\n' ∷ wire ls) in
    let both = length-append bytes [] in absurd (omega arith)

Short-fits :
    (n : ℕ) (lines : List (List ℕ)) → Short n lines → All IsMessage lines → leb 65536 n ≡ false
Short-fits n [] short fits = lt→leb_false 65536 n (omega arith)
Short-fits n (l ∷ ls) short ((_, fits), _) = lt→leb_false 65536 n (omega arith)

-- The scanner yields the lines, one token to each and in order, and then the end of the input, however the
-- bytes of the lines and their ends are divided over the reads, if no line holds a carriage return or is
-- longer than 65534 bytes.
pub scan-wire :
    (lines : List (List ℕ)) (reads : List Read) (s : Slice)
    → All IsMessage lines
    → s.elems ++ received reads ≡ wire lines
    → scan split_crlf reads s ≡ line_events lines
unfolding scan
scan-wire lines [] s plain e =
    drain_lines (suc (length s.elems)) s [] lines _ (omega arith) plain e
      (λ s' lines' e' short plain'.
        let (empty, all_read) = no_part s'.elems lines' e' short in
        let fits = Short-fits (length s'.elems) lines' short plain' in
        rw (fits, all_read) (drain_at_end s' (λ _. ends eof) empty (λ _. refl)))
scan-wire lines (r ∷ reads) s plain e =
    drain_lines (suc (length s.elems)) s (received (r ∷ reads)) lines _ (omega arith) plain e
      (λ s' lines' e' short plain'.
        let fits = Short-fits (length s'.elems) lines' short plain' in
        rw fits (
          scan-wire lines' reads (receive s' r) plain'
            (append_assoc (s'.elems) (r.bytes) (received reads) ∙ e')))
