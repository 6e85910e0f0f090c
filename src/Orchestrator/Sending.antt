-- ===== src/Orchestrator/Sending.antt =====
-- What `Connect`, `sendMessage`, `StartStream`, `StopStream` and `Close` do on every branch, and the
-- ids of the frames that they send.
use waveguide.Base.{
  ℕ, suc, ◌+◌, ◌%◌, ◌^◌, ◌≡◌, refl, ap, Bool, true, false, Option, none, some, List, [], ◌∷◌, ◌++◌,
  if◌then◌else◌, arith, length, All, get_elem?, Outcome, returns, ◌>>=◌, ◌↔◌,
}
use waveguide.Messaging.Types.{type_stream_publishing, type_outro}
use waveguide.Messaging.Encode.{encode_header, encode_outro}
use waveguide.Orchestrator.Client.{
  Client, closed, Sent, send_message, connect, close, start_stream, stop_stream, request_header,
  publishing, going_away,
}

-- A client that `Connect` has set up.
pub record IsReady (c : Client) : Type 0 where
  pub connected : c.connected ≡ true
  pub logging : c.has_logger ≡ true

-- A call of `StartStream` or `StopStream`.
pub data Publication : Type 0 where
  start stop : ℕ → ℕ → Publication

pub publish : Client → Publication → Outcome Sent
publish c (start channel_id stream_id) = start_stream c true channel_id stream_id
publish c (stop channel_id stream_id) = stop_stream c true channel_id stream_id

abbrev frames_of : Option (List ℕ) → List (List ℕ) → List (List ℕ)
frames_of none fs = fs
frames_of (some f) fs = f ∷ fs

-- The frames of calls that are made one after the other, on the client that each leaves.
pub publish_all : Client → List Publication → Outcome (List (List ℕ))
publish_all c [] = returns []
publish_all c (p ∷ ps) = do
  sent ← publish c p
  later ← publish_all sent.client ps
  returns (frames_of sent.frame later)

pub send_all : Client → List (ℕ × List ℕ) → Outcome (List (List ℕ))
send_all c [] = returns []
send_all c ((kind, payload) ∷ ms) = do
  sent ← send_message c true kind payload
  later ← send_all sent.client ms
  returns (frames_of sent.frame later)

-- The i-th of the frames has the id `id + i`, modulo 256.
abbrev pub IsNumbered : ℕ → List (List ℕ) → Type 0
IsNumbered id [] = Unit
IsNumbered id (f ∷ fs) = (get_elem? f 1 ≡ some id) × IsNumbered ((id + 1) % 2 ^ 8) fs

abbrev frame_of : Client → ℕ → List ℕ → List ℕ
frame_of c kind payload = encode_header (request_header c kind payload) ++ payload

-- The client after one more message.
abbrev advanced : Client → Client
advanced c = record c { last_message_id = (c.last_message_id + 1) % 2 ^ 8 }

pub send_message_ready :
    (c : Client) (kind : ℕ) (payload : List ℕ)
    → IsReady c
    → send_message c true kind payload
      ≡ returns
          (record { client = advanced c; frame = some (frame_of c kind payload); error = none })
unfolding send_message
send_message_ready c kind payload r = ground arith

-- Successful calls of `sendMessage` on one client number their frames consecutively, modulo 256,
-- one frame to a message.
pub send_all_ids :
    (c : Client) (ms : List (ℕ × List ℕ))
    → IsReady c
    → (fs : List (List ℕ)) × (send_all c ms ≡ returns fs)
      × (length fs ≡ length ms)
      × IsNumbered c.last_message_id fs
unfolding send_all encode_header
send_all_ids c [] r = ([], refl, refl, tt)
send_all_ids c ((kind, payload) ∷ ms) r =
    let (fs, sent, len, ids) =
      send_all_ids (advanced c) ms (record { connected = r.connected; logging = r.logging }) in
    (
      frame_of c kind payload ∷ fs,
      rw (send_message_ready c kind payload r, sent),
      ap suc len,
      (refl, ids),
    )

publish_id :
    (c : Client) (p : Publication)
    → IsReady c
    → (f : List ℕ) × (publish c p ≡ returns (record { client = c; frame = some f; error = none }))
      × (get_elem? f 1 ≡ some c.last_message_id)
unfolding publish start_stream stop_stream encode_header
publish_id c (start channel_id stream_id) r = (
  frame_of c type_stream_publishing (publishing 1 channel_id stream_id),
  rw (send_message_ready c type_stream_publishing (publishing 1 channel_id stream_id) r),
  refl,
)
publish_id c (stop channel_id stream_id) r = (
  frame_of c type_stream_publishing (publishing 0 channel_id stream_id),
  rw (send_message_ready c type_stream_publishing (publishing 0 channel_id stream_id) r),
  refl,
)

-- Every frame of a run of `StartStream` and `StopStream` carries one and the same id, the client's:
-- the value receivers drop the increment. There is one frame to a call.
pub publish_all_ids :
    (c : Client) (ps : List Publication)
    → IsReady c
    → (fs : List (List ℕ)) × (publish_all c ps ≡ returns fs)
      × (length fs ≡ length ps)
      × All (λ f. get_elem? f 1 ≡ some c.last_message_id) fs
unfolding publish_all
publish_all_ids c [] r = ([], refl, refl, tt)
publish_all_ids c (p ∷ ps) r =
    let (fs, sent, len, ids) = publish_all_ids c ps r in
    let (f, made, id) = publish_id c p r in (f ∷ fs, rw (made, sent), ap suc len, (id, ids))

-- `Connect` on every outcome of the dialling and of the write: the client is connected exactly if
-- no error is returned, and then the next message has the id 2.
pub connect_branches :
    (c : Client) (dials writes : Bool)
    → c.connected ≡ false
    → (s : Sent) × (connect c dials writes ≡ returns s)
      × ((s.client.connected ≡ true) ↔ (s.error ≡ none))
      × (s.error ≡ none → IsReady s.client × (s.client.last_message_id ≡ 2))
unfolding connect send_message
connect_branches c true true h = (_, refl, ground arith, λ e. (ground arith, refl))
connect_branches c true false h = (_, refl, ground arith, λ e. cc)
connect_branches c false writes h = (_, refl, ground arith, λ e. cc)

-- The client that `Close` leaves.
abbrev closing : Client → Bool → Client
closing c writes =
    if c.connected
    then (if writes
        then record (advanced c) { connected = false }
        else record c { connected = false })
    else c

abbrev farewell : Client → Option (List ℕ)
farewell c =
    if c.connected
    then some (frame_of c type_outro (encode_outro (record { reason = going_away })))
    else none

-- `Close` on a client that has been connected once ends the session on whatever outcome of the
-- farewell: nothing is sent after it, and a second `Close` does nothing.
close_ends :
    (c : Client) (writes writes' : Bool) (kind : ℕ) (payload : List ℕ)
    → c.has_logger ≡ true
    → (s : Sent) × (close c writes ≡ returns s)
      × (s.error ≡ none)
      × (send_message s.client writes' kind payload
          ≡ returns (record { client = s.client; frame = none; error = some closed }))
      × (close s.client writes'
          ≡ returns (record { client = s.client; frame = none; error = none }))
unfolding close send_message
close_ends c writes writes' kind payload h = (
  record { client = closing c writes; frame = farewell c; error = none },
  ground arith,
  refl,
  ground arith,
  ground arith,
)
