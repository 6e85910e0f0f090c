-- ===== src/Orchestrator/Runs.antt =====
-- A client of the orchestrator in one run, and what the theorems say of it.
use waveguide.Base.{
  ℕ, ◌≡◌, refl, true, false, some, List, [], ◌∷◌, ◌++◌, map, arith, length, get_elem?, All, returns,
}
use waveguide.Base.Text.{ascii}
use waveguide.Scanner.{ends, advance_too_far, scan}
use waveguide.Messaging.Types.{MessageHeader, IntroMessage, StreamRelayingMessage}
use waveguide.Messaging.Encode.{encode_header, encode_intro}
use waveguide.Orchestrator.Client.{Config, Client}
use waveguide.Orchestrator.Receive.{
  split_messages, Callbacks, returned, eternal_read, on_intro, on_stream_relaying,
}
use waveguide.Orchestrator.Sending.{start, stop, publish_all, publish_all_ids}
use waveguide.Orchestrator.Framing.{Message, Group, read_of, all_tokens, scan-reads}
use waveguide.Orchestrator.Truncated.{scan_split_message}
use waveguide.Orchestrator.Dispatch.{intro, relaying, Batch, group, request, eternal_read-orders}

abbrev some_config : Config
some_config = record { region_code = ascii "sea"; hostname = ascii "node" }

abbrev some_client : Client
some_client = record {
  config = some_config;
  has_logger = true;
  connected = true;
  last_message_id = 254;
}

publish_all_ids_example :
    (fs : List (List ℕ)) × (publish_all some_client (start 7 1 ∷ stop 7 1 ∷ []) ≡ returns fs)
    × (length fs ≡ 2)
    × All (λ f. get_elem? f 1 ≡ some 254) fs
publish_all_ids_example =
    publish_all_ids some_client (start 7 1 ∷ stop 7 1 ∷ [])
      (record { connected = refl; logging = refl })

abbrev unconnected : Client
unconnected = record some_client { connected = false }

abbrev some_message : Message
some_message = request 3 9 (ascii "abc")

abbrev some_group : Group
some_group = record { messages = some_message ∷ some_message ∷ []; behind = 0 ∷ [] }

scan-reads_example :
    scan split_messages (read_of some_group ∷ []) (record { elems = []; spare = 0 ∷ [] })
    ≡ all_tokens (some_group ∷ [])
scan-reads_example = scan-reads (some_group ∷ []) (0 ∷ []) (
    (
      (
        record {
          header_fits = record {
            kind_fits = omega arith;
            id_fits = omega arith;
            length_fits = omega arith;
          };
          measured = refl;
        },
        (
          record {
            header_fits = record {
              kind_fits = omega arith;
              id_fits = omega arith;
              length_fits = omega arith;
            };
            measured = refl;
          },
          tt,
        ),
      ),
      tt,
    ))

abbrev some_header : MessageHeader
some_header = record { request = true; success = true; kind = 3; id = 9; payload_length = 3 }

scan_split_message_example :
    scan split_messages
      (record { bytes = encode_header some_header ++ ascii "a"; behind = 0 ∷ 0 ∷ 0 ∷ [] }
        ∷ record { bytes = ascii "bc"; behind = [] }
        ∷ [])
      (record { elems = []; spare = [] })
    ≡ ends advance_too_far
scan_split_message_example =
    scan_split_message some_header (ascii "a") (0 ∷ 0 ∷ 0 ∷ []) []
      (record { bytes = ascii "bc"; behind = [] } ∷ [])
      (record { kind_fits = omega arith; id_fits = omega arith; length_fits = omega arith })
      (omega arith)

abbrev some_intro : IntroMessage
some_intro = record {
  version_major = 0;
  version_minor = 1;
  version_revision = 2;
  relay_layer = 0;
  region_code = ascii "sea";
  hostname = ascii "node";
}

abbrev some_relaying : StreamRelayingMessage
some_relaying = record {
  mode = 1;
  channel_id = 7;
  stream_id = 5;
  target_hostname = ascii "edge";
  stream_key = ascii "key";
}

abbrev some_batch : Batch
some_batch = record { orders = intro 1 some_intro ∷ relaying 2 some_relaying ∷ []; behind = 0 ∷ [] }

abbrev all_callbacks : Callbacks
all_callbacks = record {
  intro = true;
  outro = true;
  node_state = true;
  channel_subscription = true;
  stream_publishing = true;
  stream_relaying = true;
}

eternal_read-orders_example :
    eternal_read all_callbacks
      (λ _. true)
      (scan split_messages
        (map read_of (map group (some_batch ∷ [])))
        (record { elems = []; spare = [] }))
    ≡ record {
      calls = on_intro some_intro ∷ on_stream_relaying some_relaying ∷ [];
      outcome = returned;
    }
unfolding encode_intro
eternal_read-orders_example = eternal_read-orders all_callbacks (some_batch ∷ []) [] (
  (
    (omega arith, omega arith, omega arith),
    ((omega arith, omega arith, omega arith, omega arith, omega arith), tt),
  ),
  tt,
)
