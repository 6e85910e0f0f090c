-- ===== src/Control/Report.antt =====
-- control.go: sendMetadata and sendThumbnail, which the heartbeat calls on every tick.
-- The H.264 decoder and the JPEG encoder are parameters.
use waveguide.Base.{
  ℕ, ◌+◌, ◌-◌, ◌≡◌, refl, ap, ◌∙◌, Bool, true, false, Option, none, some, List, [], ◌∷◌, ◌++◌, map,
  arith, if◌then◌else◌,
}
use waveguide.Control.Types.{Stream, Control, Error, not_in_state, service_failed, update}
use waveguide.Control.Manager.{get_stream}
use waveguide.Control.Stream.{
  Metadata, report_metadata, apply_metadata, audio_packets, video_packets,
}

-- The fields of `StreamMetadata` that are not always zero.
pub record StreamMetadata : Type 0 where
  pub audio_codec : List ℕ
  pub ingest_server : List ℕ
  pub recv_packets : ℕ
  pub stream_time_seconds : ℕ
  pub vendor_name : List ℕ
  pub vendor_version : List ℕ
  pub video_codec : List ℕ
  pub video_height : ℕ
  pub video_width : ℕ

abbrev pub metadata_of : List ℕ → Stream → StreamMetadata
metadata_of hostname s = record {
  audio_codec = s.audio_codec;
  ingest_server = hostname;
  recv_packets = s.total_audio_packets + s.total_video_packets;
  stream_time_seconds = s.last_time - s.start_time;
  vendor_name = s.client_vendor_name;
  vendor_version = s.client_vendor_version;
  video_codec = s.video_codec;
  video_height = s.video_height;
  video_width = s.video_width;
}

-- What a call sends to the service, for which stream, with its error and what it leaves.
pub record Report (A : Type 0) : Type 0 where
  pub error : Option Error
  pub sent : Option (ℕ × A)
  pub control : Control

abbrev pub set_stream : ℕ → Stream → Control → Control
set_stream a s c = record c { heap = update c.heap a s }

set_stream_lem : (a : ℕ) (s : Stream) (c : Control) → (set_stream a s c).heap a ≡ s
set_stream_lem a s c = ground arith

-- With the stream `s` at `a`.
abbrev metadata_for : List ℕ → ℕ → Bool → ℕ → Stream → Control → Report StreamMetadata
metadata_for hostname now accepts a s c =
    let s' : Stream = record s { last_time = now } in
    record {
      error = if accepts then none else some service_failed;
      sent = some (s'.stream_id, metadata_of hostname s');
      control = set_stream a s' c;
    }

abbrev metadata_at : List ℕ → ℕ → Bool → Option ℕ → Control → Report StreamMetadata
metadata_at hostname now accepts none c = record {
  error = some not_in_state;
  sent = none;
  control = c;
}
metadata_at hostname now accepts (some a) c = metadata_for hostname now accepts a (c.heap a) c

-- `accepts` is the service's answer. The clock does not run backwards.
unfoldable pub send_metadata : List ℕ → ℕ → Bool → ℕ → Control → Report StreamMetadata
send_metadata hostname now accepts id c = metadata_at hostname now accepts (get_stream c id) c

-- The value that is read last from the channel; nil if there is none.
unfoldable pub newest : List (List ℕ) → List ℕ
newest [] = []
newest (d ∷ []) = d
newest (d ∷ e ∷ ds) = newest (e ∷ ds)

-- `h264.NewH264Decoder` and its `Decode`, where `some none` is a nil image, and `jpeg.Encode`.
pub record Images : Type 1 where
  pub Image : Type 0
  pub ready : Bool
  pub decode : List ℕ → Option (Option Image)
  pub encode_jpeg : Image → Option (List ℕ)
  pub width : Image → ℕ
  pub height : Image → ℕ

pub data ThumbnailError : Type 0 where
  no_stream no_decoder decode_failed encode_failed preview_refused : ThumbnailError

-- The error, the image that was sent, and the stream.
pub record Preview : Type 0 where
  pub error : Option ThumbnailError
  pub sent : Option (ℕ × List ℕ)
  pub stream : Stream

module _ (P : Images) where
  open P use {Image, ready, decode, encode_jpeg, width, height}

  abbrev failed : ThumbnailError → Stream → Preview
  failed e s = record { error = some e; sent = none; stream = s }

  abbrev nothing : Stream → Preview
  nothing s = record { error = none; sent = none; stream = s }

  -- From `SendJpegPreviewImage` on. The size is stored only once the service has taken the image.
  abbrev send_preview : Bool → Image → List ℕ → Stream → Preview
  send_preview accepts img jpeg s = record {
    error = if accepts then none else some preview_refused;
    sent = some (s.stream_id, jpeg);
    stream = if accepts then record s { video_width = width img; video_height = height img } else s;
  }

  abbrev preview : Bool → List ℕ → Stream → Preview
  preview accepts [] s = nothing s
  preview accepts (b ∷ bytes) s =
      if ready
      then elim (decode (b ∷ bytes)) [
        | none ↦ failed decode_failed s
        | some none ↦ nothing s
        | some (some img) ↦ elim (encode_jpeg img) [
          | none ↦ failed encode_failed s
          | some jpeg ↦ send_preview accepts img jpeg s
        ]
      ]
      else failed no_decoder s

  abbrev Thumbnailed : Type 0
  Thumbnailed = (Option ThumbnailError × Option (ℕ × List ℕ)) × Control

  -- With the stream `s` at `a`: the channel is emptied first.
  abbrev thumbnail_for : Bool → ℕ → Stream → Control → Thumbnailed
  thumbnail_for accepts a s c =
      let p = preview accepts (newest s.last_thumbnail) (record s { last_thumbnail = [] }) in
      ((p.error, p.sent), set_stream a p.stream c)

  abbrev thumbnail_at : Bool → Option ℕ → Control → Thumbnailed
  thumbnail_at accepts none c = ((some no_stream, none), c)
  thumbnail_at accepts (some a) c = thumbnail_for accepts a (c.heap a) c

  unfoldable pub send_thumbnail : Bool → ℕ → Control → Thumbnailed
  send_thumbnail accepts id c = thumbnail_at accepts (get_stream c id) c

  preview_drained :
      (accepts : Bool) (bytes : List ℕ) (s : Stream)
      → s.last_thumbnail ≡ []
      → (preview accepts bytes s).stream.last_thumbnail ≡ []
  preview_drained accepts [] s e = e
  preview_drained accepts (b ∷ bytes) s e = ground arith

  newest-snoc : (ds : List (List ℕ)) (d : List ℕ) → newest (ds ++ (d ∷ [])) ≡ d
  unfolding newest
  newest-snoc [] d = refl
  newest-snoc (e ∷ []) d = refl
  newest-snoc (e ∷ f ∷ ds) d = newest-snoc (f ∷ ds) d

  send_thumbnail_at :
      (accepts : Bool) (id a : ℕ) (s : Stream) (c : Control)
      → c.streams id ≡ some a
      → send_thumbnail accepts id (set_stream a s c) ≡ thumbnail_for accepts a s (set_stream a s c)
  unfolding send_thumbnail get_stream
  send_thumbnail_at accepts id a s c e =
      ap (λ o. thumbnail_at accepts o (set_stream a s c)) e
      ∙ ap (λ t. thumbnail_for accepts a t (set_stream a s c)) (set_stream_lem a s c)

  -- Of the keyframes that wait for a stream only the last is looked at: the error and the image that is
  -- sent are those of the call in which it is the only one; and whatever comes of it, none waits
  -- afterwards.
  pub send_thumbnail_newest :
      (accepts : Bool) (id a : ℕ) (older : List (List ℕ)) (d : List ℕ) (s : Stream) (c : Control)
      → c.streams id ≡ some a
      → let waiting = set_stream a (record s { last_thumbnail = older ++ (d ∷ []) }) c in
        let alone = set_stream a (record s { last_thumbnail = d ∷ [] }) c in
        ((send_thumbnail accepts id waiting).0 ≡ (send_thumbnail accepts id alone).0)
        × (((send_thumbnail accepts id waiting).1.heap a).last_thumbnail ≡ [])
  send_thumbnail_newest accepts id a older d s c e =
      let s' : Stream = record s { last_thumbnail = older ++ (d ∷ []) } in
      let c' : Control = set_stream a s' c in
      let p : Preview =
        preview accepts (newest (older ++ (d ∷ []))) (record s { last_thumbnail = [] }) in
      (
        rw
            (
              send_thumbnail_at accepts id a s' c e,
              send_thumbnail_at accepts id a (record s { last_thumbnail = d ∷ [] }) c e,
              newest-snoc older d,
              newest-snoc [] d,
            )
            refl,
        ap (λ r. (r.1.heap a).last_thumbnail) (send_thumbnail_at accepts id a s' c e)
            ∙ ap (λ t. t.last_thumbnail) (set_stream_lem a p.stream c')
            ∙ preview_drained accepts (newest (older ++ (d ∷ [])))
                (record s { last_thumbnail = [] }) refl,
      )

-- The packets that a run of reports adds.
abbrev pub sum : List ℕ → ℕ
sum [] = 0
sum (n ∷ ns) = n + sum ns

-- A report of a run of packets, audio if the flag is true.
abbrev pub packets : Bool × ℕ → Metadata
packets (true, n) = audio_packets n
packets (false, n) = video_packets n

abbrev pub counts : List (Bool × ℕ) → ℕ
counts [] = 0
counts ((audio, n) ∷ ps) = n + counts ps

reported :
    (ps : List (Bool × ℕ)) (s : Stream)
    → let s' = report_metadata (map packets ps) s in
      (s'.total_audio_packets + s'.total_video_packets
        ≡ s.total_audio_packets + s.total_video_packets + counts ps)
      × (s'.stream_id ≡ s.stream_id)
unfolding report_metadata apply_metadata
reported [] s = (omega arith, refl)
reported ((true, n) ∷ ps) s =
    let (total, same) =
      reported ps (record s { total_audio_packets = s.total_audio_packets + n }) in
    (omega (arith, total), same)
reported ((false, n) ∷ ps) s =
    let (total, same) =
      reported ps (record s { total_video_packets = s.total_video_packets + n }) in
    (omega (arith, total), same)

-- The metadata that is sent for a stream counts every packet that was reported since, audio and video,
-- on top of those that were counted before, under the stream's id.
pub send_metadata-report_metadata :
    (hostname : List ℕ) (now : ℕ) (accepts : Bool) (id a : ℕ) (ps : List (Bool × ℕ)) (c : Control)
    → c.streams id ≡ some a
    → (m : StreamMetadata) × ((send_metadata hostname now accepts id
          (set_stream a (report_metadata (map packets ps) (c.heap a)) c)).sent
        ≡ some ((c.heap a).stream_id, m))
      × (m.recv_packets
          ≡ (c.heap a).total_audio_packets + (c.heap a).total_video_packets + counts ps)
unfolding send_metadata get_stream
send_metadata-report_metadata hostname now accepts id a ps c e =
    let (total, same) = reported ps (c.heap a) in
    let s : Stream = record (report_metadata (map packets ps) (c.heap a)) { last_time = now } in
    let c' : Control = set_stream a (report_metadata (map packets ps) (c.heap a)) c in
    (
      metadata_of hostname s,
      ap (λ o. (metadata_at hostname now accepts o c').sent) e
          ∙ ap (λ t. (metadata_for hostname now accepts a t c').sent)
              (set_stream_lem a (report_metadata (map packets ps) (c.heap a)) c)
          ∙ ap (λ i. some (i, metadata_of hostname s)) same,
      total,
    )
