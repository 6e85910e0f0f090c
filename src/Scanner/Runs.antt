-- ===== src/Scanner/Runs.antt =====
-- A scanner of one run, and what the theorem says of it.
use waveguide.Base.{◌≡◌, true, false, List, [], ◌∷◌, ◌+◌}
use waveguide.Base.Text.{ascii}
use waveguide.Base.Slice.{Slice}
use waveguide.Scanner.{Read, scan}
use waveguide.Scanner.Halting.{ends_within, total}
use waveguide.Scanner.Readers.{scan_ends}
use waveguide.Orchestrator.Receive.{split_messages}
use waveguide.Ftl.Lines.Chunks.{split_crlf}

abbrev some_reads : List Read
some_reads =
    record { bytes = ascii "PING\r\n"; behind = [] }
    ∷ record { bytes = ascii "."; behind = [] }
    ∷ []

abbrev empty_buffer : Slice
empty_buffer = record { elems = []; spare = [] }

scan_ends_example :
    (ends_within true (0 + total some_reads) (scan split_messages some_reads empty_buffer) ≡ true)
    × (ends_within false (0 + total some_reads) (scan split_crlf some_reads empty_buffer) ≡ true)
scan_ends_example = scan_ends some_reads empty_buffer
