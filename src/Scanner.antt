-- ===== src/Scanner.antt =====
-- bufio.Scanner as the readers of waveguide use it: a split function is tried on what is buffered,
-- its tokens are handed out, and more is read when it asks for more.
-- A read that is not empty appends its bytes to the buffer and changes what lies behind them.
-- The buffer holds 65536 bytes at most. The split functions here return no error, and a token of
-- theirs always advances, so the scanner's guard against empty tokens never fires.
pub mod Laws
pub mod Halting
pub mod Readers
mod Runs
use waveguide.Base.{
  ℕ, zero, suc, ◌+◌, ◌-◌, ◌^◌, Bool, true, false, Option, none, some, List, [], ◌∷◌, ◌++◌, length,
  drop, leb, if◌then◌else◌, Outcome, returns, panic,
}
use waveguide.Base.Slice.{Slice}

-- What a split function returns: `(advance, token, nil)`.
pub record Split : Type 0 where
  pub advance : ℕ
  pub token : Option Slice

-- It is given the buffered data and whether the input has ended.
abbrev pub SplitFunc : Type 0
SplitFunc = Slice → Bool → Outcome Split

-- One `Read`: the bytes it returns and the contents of the buffer behind them.
pub record Read : Type 0 where
  pub bytes : List ℕ
  pub behind : List ℕ

-- How a scanner ends: `Err()` is nil at `eof` only. `stuck` is no Go value: fuel ran out.
pub data End : Type 0 where
  eof advance_too_far too_long panicked stuck : End

-- What the calls of `Scan` yield: tokens, and then the end.
pub data Events : Type 0 where
  token : Slice → Events → Events
  ends : End → Events

abbrev max_token_size : ℕ
max_token_size = 65536

-- `s.buf[s.start:s.end]` after an advance: what lies behind it stays.
abbrev pub skip : ℕ → Slice → Slice
skip n s = record { elems = drop n s.elems; spare = s.spare }

abbrev pub receive : Slice → Read → Slice
receive s r = record { elems = s.elems ++ r.bytes; spare = r.behind }

-- The tokens that are found with no further read, and then what `more` makes of the rest.
-- The split function is not tried on an empty buffer before the input has ended.
unfoldable pub drain : SplitFunc → Bool → ℕ → Slice → (Slice → Events) → Events
drain split at_eof zero s more = ends stuck
drain split at_eof (suc fuel) s more = elim (if leb (length s.elems) 0 then at_eof else true) [
  | false ↦ more s
  | true ↦ elim (split s at_eof) [
    | panic ↦ ends panicked
    | returns r ↦ elim (leb r.advance (length s.elems)) [
      | false ↦ ends advance_too_far
      | true ↦ elim r.token [
        | none ↦ more (skip r.advance s)
        | some t ↦ token t (drain split at_eof fuel (skip r.advance s) more)
      ]
    ]
  ]
]

-- Each token takes a byte at least, so one round more than there are bytes is enough.
abbrev pub rounds : Slice → ℕ
rounds s = suc (length s.elems)

-- The events of a scanner that holds `s` and has the reads `rs` before the input ends.
unfoldable pub scan : SplitFunc → List Read → Slice → Events
scan split [] s = drain split false (rounds s) s λ s'.
    if leb max_token_size (length s'.elems)
    then ends too_long
    else drain split true (rounds s') s' (λ _. ends eof)
scan split (r ∷ rs) s = drain split false (rounds s) s λ s'.
    elim (leb max_token_size (length s'.elems)) [
      | true ↦ ends too_long
      | false ↦ scan split rs (receive s' r)
    ]
