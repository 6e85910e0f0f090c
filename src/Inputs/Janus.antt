-- ===== src/Inputs/Janus.antt =====
-- internal/inputs/janus/janus.go: a stream that is fetched from a Janus server.
-- Janus, pion, encoding/json and the letters of randString are answers and parameters.
pub mod Crash
mod Runs
use waveguide.Base.{
  ℕ, ◌%◌, ◌^◌, Bool, true, false, ◌&&◌, Option, none, some, List, [], ◌∷◌, ◌++◌, Outcome, returns,
  panic, if◌then◌else◌,
}
use waveguide.Base.Text.{ascii, decimal}
use waveguide.Control.Types.{Stream, Answers, Control, finished, blocked, audio, video}
use waveguide.Control.Manager.{start_stream}
use waveguide.Control.Stream.{
  Metadata, add_track, report_metadata, client_vendor_name, client_vendor_version, audio_codec,
  video_codec,
}
use waveguide.Ftl.Handler.{mime_h264, mime_opus, modify}

pub record Config : Type 0 where
  pub address : List ℕ
  pub channel_id : ℕ

-- The bodies of the requests, each with its transaction.
pub data Message : Type 0 where
  create attach : List ℕ → Message
  keepalive : List ℕ → List ℕ → Message
  watch : List ℕ → ℕ → Message
  start : List ℕ → List ℕ → Message

pub record Post : Type 0 where
  pub url : List ℕ
  pub message : Message

-- The ids in the first two responses, which are none where there is no response that can be decoded, and
-- whether the third request is answered.
pub record Replies : Type 0 where
  pub created : Option ℕ
  pub attached : Option ℕ
  pub watched : Bool

-- The addresses that `Listen` makes of them.
pub record Session : Type 0 where
  pub session_url : List ℕ
  pub plugin_url : List ℕ

abbrev pub under_url : List ℕ → ℕ → List ℕ
under_url url id = url ++ (ascii "/" ++ decimal id)

-- `Listen` up to the long poll: the requests, the latest first, and a panic or the session.
unfoldable pub listen : Config → (ℕ → List ℕ) → Replies → List Post × Outcome Session
listen config transactions replies =
    let asked = record { url = config.address; message = create (transactions 0) } ∷ [] in
    elim (replies.created) [
      | none ↦ (asked, panic)
      | some id ↦
          let session_url = under_url config.address id in
          let attaching = record { url = session_url; message = attach (transactions 1) } ∷ asked in
          elim (replies.attached) [
            | none ↦ (attaching, panic)
            | some plugin ↦
                let plugin_url = under_url session_url plugin in
                (
                  record { url = plugin_url; message = watch (transactions 2) (config.channel_id) }
                      ∷ attaching,
                  (if replies.watched
                      then returns (record { session_url = session_url; plugin_url = plugin_url })
                      else panic),
                )
          ]
    ]

-- The loop that keeps the session, by whether each request is answered: the requests, and false where it
-- panics.
unfoldable pub keep_alive : List ℕ → List ℕ → List ℕ → List Bool → List Post × Bool
keep_alive transaction session_id session_url [] = ([], true)
keep_alive transaction session_id session_url (answered ∷ later) =
    let (posts, goes_on) = keep_alive transaction session_id session_url later in
    let asked : Post = record { url = session_url; message = keepalive transaction session_id } in
    if answered then (asked ∷ posts, goes_on) else (asked ∷ [], false)

-- What the manager's parties, pion and Janus answer to one negotiation, and the description that pion
-- makes once it has gathered its candidates.
pub record World : Type 0 where
  pub starting : Answers
  pub stopping : Answers
  pub makes_video : Bool
  pub makes_audio : Bool
  pub makes_peer : Bool
  pub takes_audio : Bool
  pub takes_video : Bool
  pub takes_offer : Bool
  pub makes_answer : Bool
  pub takes_answer : Bool
  pub local_sdp : List ℕ
  pub transaction : List ℕ
  pub answered : Bool

-- `JanusSource` with its control. `posts` has the answers that were sent, the latest first.
pub record Source : Type 0 where
  pub control : Control
  pub posts : List Post

-- A panic ends the process.
pub data Negotiation : Type 0 where
  waits : Negotiation
  crashed negotiated : Source → Negotiation

-- `AddTrack` twice, and the metadata.
abbrev pub describe_stream : Stream → Stream
describe_stream s =
    report_metadata
      (audio_codec mime_opus
        ∷ video_codec mime_h264
        ∷ client_vendor_name (ascii "waveguide-janus-input")
        ∷ client_vendor_version (ascii "0.0.1")
        ∷ [])
      (add_track audio 1 mime_opus (add_track video 0 mime_h264 s).1).1

-- Whether pion makes the connection and takes the two descriptions: each failure is a panic.
abbrev pub connects : World → Bool
connects w =
    w.makes_peer && w.takes_audio && w.takes_video && w.takes_offer && w.makes_answer
    && w.takes_answer

abbrev pub answer_post : World → List ℕ → Post
answer_post w plugin_url = record {
  url = plugin_url;
  message = start (w.transaction) (w.local_sdp);
}

-- From the tracks on, for the stream at `ctx`.
unfoldable pub set_up : World → List ℕ → ℕ → Source → Negotiation
set_up w plugin_url ctx s =
    let described = record s { control = modify ctx describe_stream (s.control) } in
    let sent = record described { posts = answer_post w plugin_url ∷ s.posts } in
    if w.makes_video && w.makes_audio
    then (if connects w
        then (if w.answered then negotiated sent else crashed sent)
        else crashed described)
    else crashed s

unfoldable pub negotiate : World → Config → List ℕ → Source → Negotiation
negotiate w config plugin_url s =
    elim (start_stream (w.starting) (w.stopping) (config.channel_id % 2 ^ 32) (s.control)) [
      | blocked ↦ waits
      | finished started ↦
          let s' = record s { control = started.control } in
          elim (started.error) [ some e ↦ crashed s' | none ↦ set_up w plugin_url (started.ctx) s' ]
    ]

-- A long poll: no response, one that cannot be decoded, or one with a description, which may be empty.
pub data Poll : Type 0 where
  unanswered undecodable : Poll
  said : List ℕ → Poll

unfoldable pub poll : Config → List ℕ → List (World × Poll) → Source → Negotiation
poll config plugin_url [] s = negotiated s
poll config plugin_url ((w, unanswered) ∷ polls) s = crashed s
poll config plugin_url ((w, undecodable) ∷ polls) s = poll config plugin_url polls s
poll config plugin_url ((w, said []) ∷ polls) s = poll config plugin_url polls s
poll config plugin_url ((w, said (c ∷ sdp)) ∷ polls) s = elim (negotiate w config plugin_url s) [
  | waits ↦ waits
  | crashed s' ↦ crashed s'
  | negotiated s' ↦ poll config plugin_url polls s'
]

-- The loop over a remote track: the payload's length of each packet, or an error of the read, which
-- panics. What the track's `WriteRTP` returns is dropped.
unfoldable pub relay : (ℕ → Metadata) → ℕ → List (Option ℕ) → Control → Outcome Control
relay kind a [] c = returns c
relay kind a (p ∷ packets) c = elim ((c.heap a).cancelled) [
  | true ↦ returns c
  | false ↦ elim p [
    | none ↦ panic
    | some n ↦ relay kind a packets (modify a (report_metadata (kind n ∷ [])) c)
  ]
]
