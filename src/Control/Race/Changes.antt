-- ===== src/Control/Race/Changes.antt =====
-- The changes of the manager that the steps of a call make, and what they keep for the other calls.
use waveguide.Base.{◌∙◌, sym, ℕ, suc, ◌<◌, ◌≡◌, ◌≢◌, some, arith}
use waveguide.Control.Types.{Control}
use waveguide.Control.Manager.{new_stream}
use waveguide.Control.Race.{collected}
use waveguide.Control.Race.Invariant.{IsMapped, IsFound, IsPast, IsKept}

-- A change of the stream at `a` alone, after which its first channel is full.
pub record IsSent (c : Control) (a : ℕ) (c' : Control) : Type 0 where
  pub next : c'.next ≡ c.next
  pub others : (b : ℕ) → b ≢ a → c'.heap b ≡ c.heap b
  pub serves : (c'.heap a).channel_id ≡ (c.heap a).channel_id
  pub sent : (c'.heap a).stop_heartbeat ≡ 1
  pub streams : (j : ℕ) → c'.streams j ≡ c.streams j
  pub collectors : (j : ℕ) → c'.metadata_collectors j ≡ c.metadata_collectors j

pub IsSent-IsKept : (c c' : Control) (a id b : ℕ) → IsSent c a c' → b ≢ a → IsKept c c' id b
IsSent-IsKept c c' a id b change other = record {
  past = λ p. record {
    allocated = ground (arith, p.allocated, change.next);
    serves = ground (arith, p.serves, change.others b other);
    sent = ground (arith, p.sent, change.others b other);
  };
  mapped = λ m. change.streams id ∙ m;
  peersnap_free = λ e. ground (arith, change.others b other);
  collector_free = λ m e. change.collectors id ∙ e;
}

pub IsSent-IsFound :
    (c c' : Control) (a id b : ℕ) → IsSent c a c' → IsFound c id b → IsFound c' id b
IsSent-IsFound c c' a id b change f = record {
  allocated = ground (arith, f.allocated, change.next);
  serves = ground (arith, f.serves, change.others b, change.serves);
  mapped = λ e. ground (arith, f.mapped, change.others b, change.sent, change.streams id);
}

pub IsSent-IsMapped :
    (c c' : Control) (a id b : ℕ)
    → IsSent c a c'
    → (c.streams id ≡ some b → IsMapped c id b)
    → c'.streams id ≡ some b
    → IsMapped c' id b
IsSent-IsMapped c c' a id b change before e =
    let m = before (sym (change.streams id) ∙ e) in
    record {
      allocated = ground (arith, m.allocated, change.next);
      serves = ground (arith, m.serves, change.others b, change.serves);
      peersnap_free = λ empty. ground (arith, m.peersnap_free, change.others b, change.sent);
      collector_free = λ empty.
          ground (arith, m.collector_free, change.others b, change.sent, change.collectors id);
    }

-- A change of what the map and the collectors hold at `k` alone, while the stream there is past its first
-- send: afterwards the map has it still or has none.
pub record IsUnmapped (c : Control) (k a : ℕ) (c' : Control) : Type 0 where
  pub next : c'.next ≡ c.next
  pub heap : (b : ℕ) → c'.heap b ≡ c.heap b
  pub was : c.streams k ≡ some a
  pub sent : (c.heap a).stop_heartbeat ≡ 1
  pub streams : (j : ℕ) → j ≢ k → c'.streams j ≡ c.streams j
  pub left : (b : ℕ) → c'.streams k ≡ some b → a ≡ b
  pub collectors : (j : ℕ) → j ≢ k → c'.metadata_collectors j ≡ c.metadata_collectors j

pub IsPast-unmapped :
    (c c' : Control) (k a id b : ℕ) → IsUnmapped c k a c' → IsPast c id b → IsPast c' id b
IsPast-unmapped c c' k a id b change p = record {
  allocated = ground (arith, p.allocated, change.next);
  serves = ground (arith, p.serves, change.heap b);
  sent = ground (arith, p.sent, change.heap b);
}

pub IsUnmapped-IsKept :
    (c c' : Control) (k a id b : ℕ) → IsUnmapped c k a c' → b ≢ a → IsKept c c' id b
IsUnmapped-IsKept c c' k a id b change other = record {
  past = IsPast-unmapped c c' k a id b change;
  mapped = λ m. change.streams id (away m) ∙ m;
  peersnap_free = λ e. ground (arith, change.heap b);
  collector_free = λ m e. change.collectors id (away m) ∙ e;
}
  where
    away : c.streams id ≡ some b → id ≢ k
    away m same = other (ground (arith, change.was))

pub IsUnmapped-IsFound :
    (c c' : Control) (k a id b : ℕ) → IsUnmapped c k a c' → IsFound c id b → IsFound c' id b
IsUnmapped-IsFound c c' k a id b change f = record {
  allocated = ground (arith, f.allocated, change.next);
  serves = ground (arith, f.serves, change.heap b);
  mapped = λ e. ground (arith, f.mapped, change.heap b, change.streams id, change.was, change.sent);
}

pub IsUnmapped-IsMapped :
    (c c' : Control) (k a id b : ℕ)
    → IsUnmapped c k a c'
    → (c.streams id ≡ some b → IsMapped c id b)
    → c'.streams id ≡ some b
    → IsMapped c' id b
IsUnmapped-IsMapped c c' k a id b change before e =
    let same : c.streams id ≡ some b =
      ground (arith, change.streams id, change.left b, change.was) in
    let m = before same in
    record {
      allocated = ground (arith, m.allocated, change.next);
      serves = ground (arith, m.serves, change.heap b);
      peersnap_free = λ empty. ground (arith, m.peersnap_free, change.heap b);
      collector_free = λ empty.
          ground
            (arith, m.collector_free, change.heap b, change.sent, change.was, change.collectors id);
    }

pub new_stream-IsKept :
    (k now : ℕ) (c : Control) (id b : ℕ) → b < c.next → IsKept c (new_stream k now c).1 id b
unfolding new_stream
new_stream-IsKept k now c id b old = record {
  past = λ p. record {
    allocated = ground (arith, p.allocated);
    serves = ground (arith, p.serves);
    sent = ground (arith, p.sent);
  };
  mapped = λ m. ground arith;
  peersnap_free = λ e. ground arith;
  collector_free = λ m e. ground arith;
}

pub new_stream-IsFound :
    (k now : ℕ) (c : Control) (id b : ℕ) → IsFound c id b → IsFound (new_stream k now c).1 id b
unfolding new_stream
new_stream-IsFound k now c id b f = record {
  allocated = ground (arith, f.allocated);
  serves = ground (arith, f.serves, f.allocated);
  mapped = λ e. ground (arith, f.mapped, f.allocated);
}

pub new_stream-IsMapped :
    (k now : ℕ) (c : Control) (id b : ℕ)
    → (c.streams id ≡ some b → IsMapped c id b)
    → (new_stream k now c).1.streams id ≡ some b
    → IsMapped (new_stream k now c).1 id b
unfolding new_stream
new_stream-IsMapped k now c id b before e = ground (arith, before)

module _ (k n : ℕ) (c : Control) (full : c.metadata_collectors k ≡ some (suc n)) where
  pub collected-IsKept : (id b : ℕ) → IsKept c (collected k n c) id b
  collected-IsKept id b = record {
    past = λ p. record { allocated = p.allocated; serves = p.serves; sent = p.sent };
    mapped = λ m. m;
    peersnap_free = λ e. e;
    collector_free = λ m e. ground (arith, full);
  }

  pub collected-IsFound : (id b : ℕ) → IsFound c id b → IsFound (collected k n c) id b
  collected-IsFound id b f = record {
    allocated = f.allocated;
    serves = f.serves;
    mapped = f.mapped;
  }

  pub collected-IsMapped : (id b : ℕ) → IsMapped c id b → IsMapped (collected k n c) id b
  collected-IsMapped id b m = record {
    allocated = m.allocated;
    serves = m.serves;
    peersnap_free = m.peersnap_free;
    collector_free = λ empty. ground (arith, full, m.collector_free);
  }
