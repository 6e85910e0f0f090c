-- ===== src/Ftl/Media.antt =====
-- The loop of listenForMedia (server.go): what becomes of each datagram.
-- `rtp.Packet.Unmarshal` and the NACK interceptor's reader are parameters.
use waveguide.Base.{
  ℕ, ◌+◌, ◌*◌, ◌/◌, ◌%◌, ◌≡◌, ◌≢◌, Bool, true, false, Option, none, some, List, [], ◌∷◌, ◌++◌,
  arith, ◌==◌, if◌then◌else◌, Outcome, returns, panic, get_elem?,
}
use waveguide.Ftl.Connection.{Metadata}

-- The fields of `rtp.Packet` that the loop reads.
pub record Packet : Type 0 where
  pub payload_type : ℕ
  pub bytes : List ℕ

-- What the loop calls: `OnVideo` and `OnAudio` of the handler, false for an error, and the reader of
-- the NACK interceptor, false for an error.
pub record MediaHandler : Type 1 where
  pub State : Type 0
  pub unmarshal : List ℕ → Option Packet
  pub on_video : Packet → State → Bool × State
  pub on_audio : Packet → State → Bool × State
  pub read_nack : List ℕ → State → Bool × State

-- What the loop does after a datagram: it reads the next one, or it closes the connection and ends.
pub data Next : Type 0 where
  goes_on closes : Next

-- What a round of the loop leaves: `ponged` holds the datagrams that were written back.
pub record Media (S : Type 0) : Type 0 where
  pub state : S
  pub ponged : List (List ℕ)
  pub rtcp_bound : Bool

-- `FTL_PAYLOAD_TYPE_PING`
abbrev pub ping_type : ℕ
ping_type = 250

-- `marker<<7 | packet.PayloadType` for the marker bit of the second byte.
unfoldable pub full_payload_type : List ℕ → ℕ → Outcome ℕ
full_payload_type buf payload_type = elim (get_elem? buf 1) [
  | none ↦ panic
  | some b ↦ returns (b / 128 % 2 * 128 + payload_type)
]

module _ (H : MediaHandler) where
  open H use {State, unmarshal, on_video, on_audio, read_nack}

  abbrev bound : Media State → Media State
  bound m = record m { rtcp_bound = true }

  -- A video packet goes to the handler, then to the NACK generator, whose error is a panic.
  unfoldable pub take_video : List ℕ → Packet → Media State → Outcome (Next × Media State)
  take_video buf packet m =
      let (taken, state) = on_video packet m.state in
      let (read, state') = read_nack buf state in
      if taken
      then if read then returns (goes_on, bound (record m { state = state' })) else panic
      else returns (closes, record m { state = state })

  unfoldable pub take_audio : Packet → Media State → Outcome (Next × Media State)
  take_audio packet m =
      let (taken, state) = on_audio packet m.state in
      let m' = record m { state = state } in
      returns (if taken then (goes_on, bound m') else (closes, m'))

  -- A ping is written back. A sender report and an unknown type are only logged.
  unfoldable pub take_other : List ℕ → Packet → Media State → Outcome (Next × Media State)
  take_other buf packet m = elim (full_payload_type buf (packet.payload_type)) [
    | panic ↦ panic
    | returns t ↦ returns (
      goes_on,
      bound (if t == ping_type then record m { ponged = m.ponged ++ (buf ∷ []) } else m),
    )
  ]

  unfoldable pub take_datagram : Metadata → List ℕ → Media State → Outcome (Next × Media State)
  take_datagram meta buf m = elim (unmarshal buf) [
    | none ↦ returns (goes_on, m)
    | some packet ↦
        if packet.payload_type == meta.video_payload_type
        then take_video buf packet m
        else if packet.payload_type == meta.audio_payload_type
        then take_audio packet m
        else take_other buf packet m
  ]

  -- The loop over the reads: whether `mediaConnected` still holds, and the datagram, where `none` is an
  -- error of the read. The result says whether the loop closes the connection.
  unfoldable pub media_loop :
      Metadata → List (Bool × Option (List ℕ)) → Media State → Outcome (Bool × Media State)
  media_loop meta [] m = returns (false, m)
  media_loop meta ((false, datagram) ∷ rest) m = returns (false, m)
  media_loop meta ((true, none) ∷ rest) m = returns (true, m)
  media_loop meta ((true, some buf) ∷ rest) m = elim (take_datagram meta buf m) [
    | panic ↦ panic
    | returns (closes, m') ↦ returns (true, m')
    | returns (goes_on, m') ↦ media_loop meta rest m'
  ]

  -- pion reads the payload type from the low seven bits of the second byte.
  abbrev pub ReadsPayloadType : Type 0
  ReadsPayloadType =
      (b0 b1 : ℕ) (rest : List ℕ) (packet : Packet)
      → unmarshal (b0 ∷ b1 ∷ rest) ≡ some packet
      → packet.payload_type ≡ b1 % 128

  -- A datagram of payload type 250, for a client whose video and audio types are not 122, is written
  -- back as it came and reaches neither the handler nor the NACK generator.
  take_datagram_pong :
      ReadsPayloadType
      → (meta : Metadata) (b0 : ℕ) (rest : List ℕ) (packet : Packet) (m : Media State)
      → unmarshal (b0 ∷ ping_type ∷ rest) ≡ some packet
      → meta.video_payload_type ≢ 122
      → meta.audio_payload_type ≢ 122
      → take_datagram meta (b0 ∷ ping_type ∷ rest) m
        ≡ returns (
          goes_on,
          record m { ponged = m.ponged ++ ((b0 ∷ ping_type ∷ rest) ∷ []); rtcp_bound = true },
        )
  unfolding take_datagram take_other full_payload_type
  take_datagram_pong reads meta b0 rest packet m parsed not_video not_audio =
      ground (arith, reads b0 ping_type rest packet parsed)
