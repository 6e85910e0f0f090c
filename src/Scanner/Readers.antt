-- ===== src/Scanner/Readers.antt =====
-- ftl_orchestrator.go and server.go: the two readers over a scanner come to an end.
use waveguide.Base.{◌+◌, ◌≡◌, refl, true, false, List, arith, length}
use waveguide.Base.Slice.{Slice}
use waveguide.Scanner.{Read, scan}
use waveguide.Scanner.Halting.{Advances, PanicsOnlyIf, ends_within, total, scan_within}
use waveguide.Orchestrator.Receive.{split_messages}
use waveguide.Ftl.Lines.{scan_crlf}
use waveguide.Ftl.Lines.Chunks.{split_crlf}

split_messages-Advances : Advances split_messages
unfolding split_messages
split_messages-Advances s at_eof r t e found = ground arith

split_crlf-Advances : Advances split_crlf
unfolding scan_crlf
split_crlf-Advances s at_eof r t e found = ground arith

split_crlf-PanicsOnlyIf : PanicsOnlyIf false split_crlf
split_crlf-PanicsOnlyIf s at_eof e = absurd (ground arith)

-- Whatever is read, in whatever pieces: the scanner of a control connection ends with the input or with an
-- error, and that of the orchestrator's reader with the input, an error or a panic of its split function,
-- both after at most as many tokens as there are bytes.
pub scan_ends :
    (reads : List Read) (s : Slice)
    → (ends_within true (length s.elems + total reads) (scan split_messages reads s) ≡ true)
      × (ends_within false (length s.elems + total reads) (scan split_crlf reads s) ≡ true)
scan_ends reads s = (
  scan_within true split_messages (λ t at_eof e. refl) split_messages-Advances reads s,
  scan_within false split_crlf split_crlf-PanicsOnlyIf split_crlf-Advances reads s,
)
