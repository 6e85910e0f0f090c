-- ===== src/Outputs/Whep/Leak.antt =====
-- whep.go: what becomes of the connections.
use waveguide.Base.{
  ℕ, ◌<◌, ◌≤◌, ◌≡◌, Bool, true, false, Bool-cases, Option, none, some, Option-cases, inl, inr, List,
  arith,
}
use waveguide.Base.Split.{atoi_uint32}
use waveguide.Control.Types.{Control}
use waveguide.Control.Manager.{get_stream, get_tracks}
use waveguide.Outputs.Whep.{
  Server, World, not_found, created, PeerState, new, connecting, connected, disconnected, failed,
  closed_down, cleanup_peer, endpoint, take_answer, resource, on_state_change, on_timeout, on_debug,
  forward,
}

-- What happens to the server, whatever the manager does meanwhile.
pub data Step : Server → Server → Type 0 where
  request : {s : Server} (w : World) (channel : List ℕ) → Step s (endpoint w channel s).1
  answer :
      {s : Server} (is_options : Bool) (body : Option (List ℕ)) (takes : Bool) (p : Option ℕ)
      → Step s (resource is_options body takes p s).1
  change : {s : Server} (p : ℕ) (state : PeerState) → Step s (on_state_change p state s)
  timeout : {s : Server} (p : ℕ) (is_connected : Bool) → Step s (on_timeout p is_connected s)
  debug_channel : {s : Server} (p : ℕ) (opens : Bool) → Step s (on_debug p opens s)
  reported : {s : Server} (p : ℕ) (packets : List (Option (List ℕ))) → Step s (forward p packets s)
  manager : {s : Server} (c : Control) → Step s (record s { control = c })

pub data Reach (s : Server) : Server → Type 0 where
  here : Reach s s
  later : {t u : Server} → Reach s t → Step t u → Reach s u

-- The connections in the map are open, and those that are not made yet are neither mapped nor closed.
pub record IsSound (s : Server) : Type 0 where
  pub mapped_open : (p : ℕ) → s.peers p ≡ true → s.closed p ≡ false
  pub unmade : (p : ℕ) → s.next_peer ≤ p → (s.peers p ≡ false) × (s.closed p ≡ false)

-- The connection is made, open and in no map.
record IsLost (p : ℕ) (s : Server) : Type 0 where
  made : p < s.next_peer
  unmapped : s.peers p ≡ false
  still_open : s.closed p ≡ false

cleanup_peer-IsSound : (k : ℕ) (s : Server) → IsSound s → IsSound (cleanup_peer k s)
unfolding cleanup_peer
cleanup_peer-IsSound k s sound = record {
  mapped_open = λ p e. ground (arith, sound.mapped_open p);
  unmade = λ p fresh.
      let fresh' : s.next_peer ≤ p = ground (arith, fresh) in ground (arith, sound.unmade p fresh');
}

cleanup_peer-IsLost : (p k : ℕ) (s : Server) → IsLost p s → IsLost p (cleanup_peer k s)
unfolding cleanup_peer
cleanup_peer-IsLost p k s lost = record {
  made = ground (arith, lost.made);
  unmapped = ground (arith, lost.unmapped);
  still_open = ground (arith, lost.unmapped, lost.still_open);
}

-- What a step must do to a connection for the two properties to last.
record IsGood (s t : Server) : Type 0 where
  sound : IsSound s → IsSound t
  lost : (p : ℕ) → IsLost p s → IsLost p t

IsGood-same : (s : Server) → IsGood s s
IsGood-same s = record { sound = λ sound. sound; lost = λ p lost. lost }

IsGood-cleanup : (k : ℕ) (s : Server) → IsGood s (cleanup_peer k s)
IsGood-cleanup k s = record {
  sound = cleanup_peer-IsSound k s;
  lost = λ p. cleanup_peer-IsLost p k s;
}

endpoint-IsGood : (w : World) (channel : List ℕ) (s : Server) → IsGood s (endpoint w channel s).1
unfolding endpoint
endpoint-IsGood w channel s = record {
  sound = λ sound. record {
    mapped_open = λ p e. ground (arith, sound.mapped_open p, sound.unmade p);
    unmade = λ p fresh. ground (arith, sound.unmade p);
  };
  lost = λ p lost. record {
    made = ground (arith, lost.made);
    unmapped = ground (arith, lost.made, lost.unmapped);
    still_open = ground (arith, lost.still_open);
  };
}

resource-IsGood :
    (is_options : Bool) (body : Option (List ℕ)) (takes : Bool) (p : Option ℕ) (s : Server)
    → IsGood s (resource is_options body takes p s).1
unfolding resource
resource-IsGood true body takes p s = IsGood-same s
resource-IsGood false none takes p s = IsGood-same s
resource-IsGood false (some text) takes none s = IsGood-same s
resource-IsGood false (some text) takes (some p) s = elim (Bool-cases (s.peers p)) [
  | inr missing ↦ rw missing (IsGood-same s)
  | inl mapped ↦ rw mapped (answered takes)
]
  where
    answered : (takes : Bool) → IsGood s (take_answer text takes p true s).1
    answered true = record {
      sound = λ sound. record { mapped_open = sound.mapped_open; unmade = sound.unmade };
      lost = λ q lost. record {
        made = lost.made;
        unmapped = lost.unmapped;
        still_open = lost.still_open;
      };
    }
    answered false = IsGood-cleanup p s

step-IsGood : {s t : Server} → Step s t → IsGood s t
unfolding on_state_change on_timeout on_debug forward
step-IsGood {s} (request w channel) = endpoint-IsGood w channel s
step-IsGood {s} (answer is_options body takes p) = resource-IsGood is_options body takes p s
step-IsGood {s} (change p new) = IsGood-same s
step-IsGood {s} (change p connecting) = IsGood-same s
step-IsGood {s} (change p connected) = IsGood-same s
step-IsGood {s} (change p disconnected) = IsGood-cleanup p s
step-IsGood {s} (change p failed) = IsGood-cleanup p s
step-IsGood {s} (change p closed_down) = IsGood-cleanup p s
step-IsGood {s} (timeout p true) = IsGood-same s
step-IsGood {s} (timeout p false) = IsGood-cleanup p s
step-IsGood {s} (debug_channel p opens) = record {
  sound = λ sound. record { mapped_open = sound.mapped_open; unmade = sound.unmade };
  lost =
      λ q lost. record { made = lost.made; unmapped = lost.unmapped; still_open = lost.still_open };
}
step-IsGood {s} (reported p packets) = elim (Bool-cases (s.debug p)) [
  | inr silent ↦ rw silent (IsGood-same s)
  | inl told ↦ rw told (record {
    sound = λ sound. record { mapped_open = sound.mapped_open; unmade = sound.unmade };
    lost = λ q lost. record {
      made = lost.made;
      unmapped = lost.unmapped;
      still_open = lost.still_open;
    };
  })
]
step-IsGood {s} (manager c) = record {
  sound = λ sound. record { mapped_open = sound.mapped_open; unmade = sound.unmade };
  lost =
      λ q lost. record { made = lost.made; unmapped = lost.unmapped; still_open = lost.still_open };
}

pub Reach-IsSound : {s t : Server} → IsSound s → Reach s t → IsSound t
Reach-IsSound sound here = sound
Reach-IsSound sound (later r st) = (step-IsGood st).sound (Reach-IsSound sound r)

Reach-IsLost : {s t : Server} (p : ℕ) → IsLost p s → Reach s t → IsLost p t
Reach-IsLost p lost here = lost
Reach-IsLost p lost (later r st) = (step-IsGood st).lost p (Reach-IsLost p lost r)

-- A request for a channel that has no stream is answered with 404, and the connection that was made for it
-- is never closed: whatever happens later, it is open and in no map.
pub endpoint_leaks :
    {s t : Server} (w : World) (channel : List ℕ) (id : ℕ)
    → IsSound s
    → atoi_uint32 channel ≡ some id
    → s.control.streams id ≡ none
    → w.makes_peer ≡ true
    → Reach (endpoint w channel s).1 t
    → ((endpoint w channel s).0 ≡ not_found)
      × (t.closed s.next_peer ≡ false)
      × (t.peers s.next_peer ≡ false)
unfolding endpoint get_tracks get_stream
endpoint_leaks {s} w channel id sound names missing makes run =
    let lost : IsLost s.next_peer (endpoint w channel s).1 = record {
      made = ground arith;
      unmapped = ground (arith, sound.unmade s.next_peer);
      still_open = ground (arith, sound.unmade s.next_peer);
    } in
    let lost' = Reach-IsLost s.next_peer lost run in
    (ground arith, lost'.still_open, lost'.unmapped)

-- Whatever has come before, a viewer who gets an offer asked for a channel with a stream; the connection of
-- the offer is open, in the map, and carries the tracks of that stream, and it was in no map before.
endpoint_offers :
    {s t : Server} (w : World) (channel : List ℕ) (p : ℕ) (sdp : List ℕ)
    → IsSound s
    → Reach s t
    → (endpoint w channel t).0 ≡ created p sdp
    → (id : ℕ) × (a : ℕ) × (atoi_uint32 channel ≡ some id)
      × (t.control.streams id ≡ some a)
      × ((endpoint w channel t).1.tracks p ≡ (t.control.heap a).tracks)
      × ((endpoint w channel t).1.peers p ≡ true)
      × ((endpoint w channel t).1.closed p ≡ false)
      × (t.peers p ≡ false)
unfolding endpoint get_tracks get_stream
endpoint_offers {t = t} w channel p sdp sound run e =
    let sound' = Reach-IsSound sound run in
    elim (Option-cases (atoi_uint32 channel)) [
      | inl nameless ↦ absurd (ground arith)
      | inr (id, names) ↦ elim (Option-cases (t.control.streams id)) [
        | inl missing ↦ absurd (ground arith)
        | inr (a, has) ↦
            let own : p ≡ t.next_peer = ground arith in
            let unmade = sound'.unmade t.next_peer (omega arith) in
            (id, a, names, has, ground arith, ground arith, ground arith, ground arith)
      ]
    ]
