-- ===== src/Control/Race/Invariant.antt =====
-- What every scene that is reached from a well-formed manager satisfies: a stream has one call at most that
-- has passed the first send, and that call finds its channels empty.
use waveguide.Base.{ℕ, ◌<◌, ◌≡◌, refl, Option, none, some}
use waveguide.Control.Types.{Control}
use waveguide.Control.Race.{
  At, looking, at_heartbeat, at_peersnap, at_collector, ending, withdrawing, removing, cancelling,
  returned, Scene,
}

-- The stream whose first send a call has passed.
unfoldable pub holds : At → Option ℕ
holds looking = none
holds (at_heartbeat a) = none
holds (at_peersnap a) = some a
holds (at_collector a) = some a
holds (ending a) = some a
holds (withdrawing a) = some a
holds (removing a) = some a
holds (cancelling a removed) = some a
holds (returned a e) = a

-- The stream in the map at `id` is allocated and knows its channel. While nothing has been sent, its other
-- channels are empty too.
pub record IsMapped (c : Control) (id a : ℕ) : Type 0 where
  pub allocated : a < c.next
  pub serves : (c.heap a).channel_id ≡ id
  pub peersnap_free : (c.heap a).stop_heartbeat ≡ 0 → (c.heap a).stop_peersnap ≡ 0
  pub collector_free : (c.heap a).stop_heartbeat ≡ 0 → c.metadata_collectors id ≡ some 0

-- The stream was found at `id`, and has been there since if nothing has been sent.
pub record IsFound (c : Control) (id a : ℕ) : Type 0 where
  pub allocated : a < c.next
  pub serves : (c.heap a).channel_id ≡ id
  pub mapped : (c.heap a).stop_heartbeat ≡ 0 → c.streams id ≡ some a

-- A call has passed the first send of the stream.
pub record IsPast (c : Control) (id a : ℕ) : Type 0 where
  pub allocated : a < c.next
  pub serves : (c.heap a).channel_id ≡ id
  pub sent : (c.heap a).stop_heartbeat ≡ 1

abbrev pub Fits : Control → ℕ → At → Type 0
Fits c id looking = Unit
Fits c id (at_heartbeat a) = IsFound c id a
Fits c id (at_peersnap a) =
    IsPast c id a
    × (c.streams id ≡ some a)
    × ((c.heap a).stop_peersnap ≡ 0)
    × (c.metadata_collectors id ≡ some 0)
Fits c id (at_collector a) =
    IsPast c id a × (c.streams id ≡ some a) × (c.metadata_collectors id ≡ some 0)
Fits c id (ending a) = IsPast c id a × (c.streams id ≡ some a)
Fits c id (withdrawing a) = IsPast c id a × (c.streams id ≡ some a)
Fits c id (removing a) = IsPast c id a × (c.streams id ≡ some a)
Fits c id (cancelling a removed) = IsPast c id a
Fits c id (returned none e) = Unit
Fits c id (returned (some a) e) = IsPast c id a

pub record IsFair (s : Scene) : Type 0 where
  pub mapped : (id a : ℕ) → s.control.streams id ≡ some a → IsMapped s.control id a
  pub fits : (i : ℕ) → Fits s.control (s.calls i).channel (s.calls i).at
  pub alone : (i j a : ℕ) → holds (s.calls i).at ≡ some a → holds (s.calls j).at ≡ some a → i ≡ j

-- What a step keeps for a call on the channel `id` that holds the stream at `b`.
pub record IsKept (c c' : Control) (id b : ℕ) : Type 0 where
  pub past : IsPast c id b → IsPast c' id b
  pub mapped : c.streams id ≡ some b → c'.streams id ≡ some b
  pub peersnap_free : (c.heap b).stop_peersnap ≡ 0 → (c'.heap b).stop_peersnap ≡ 0
  pub collector_free :
      c.streams id ≡ some b → c.metadata_collectors id ≡ some 0 → c'.metadata_collectors id ≡ some 0

pub Fits-kept :
    (c c' : Control) (id : ℕ) (at : At)
    → ((b : ℕ) → b < c.next → holds at ≡ some b → IsKept c c' id b)
    → ((b : ℕ) → IsFound c id b → IsFound c' id b)
    → Fits c id at
    → Fits c' id at
unfolding holds
Fits-kept c c' id looking keeps finds f = tt
Fits-kept c c' id (at_heartbeat b) keeps finds f = finds b f
Fits-kept c c' id (at_peersnap b) keeps finds (p, m, e, g) =
    let k = keeps b p.allocated refl in
    (k.past p, k.mapped m, k.peersnap_free e, k.collector_free m g)
Fits-kept c c' id (at_collector b) keeps finds (p, m, g) =
    let k = keeps b p.allocated refl in (k.past p, k.mapped m, k.collector_free m g)
Fits-kept c c' id (ending b) keeps finds (p, m) =
    let k = keeps b p.allocated refl in (k.past p, k.mapped m)
Fits-kept c c' id (withdrawing b) keeps finds (p, m) =
    let k = keeps b p.allocated refl in (k.past p, k.mapped m)
Fits-kept c c' id (removing b) keeps finds (p, m) =
    let k = keeps b p.allocated refl in (k.past p, k.mapped m)
Fits-kept c c' id (cancelling b removed) keeps finds p = (keeps b p.allocated refl).past p
Fits-kept c c' id (returned none e) keeps finds f = tt
Fits-kept c c' id (returned (some b) e) keeps finds p = (keeps b p.allocated refl).past p
