-- ===== src/Ftl/Meeting/Serving.antt =====
-- server.go: the run of the server over the messages of a client that holds the channel's key.
use waveguide.Base.{
  ℕ, ◌≡◌, ◌≢◌, refl, ◌∙◌, Bool, true, none, List, [], ◌∷◌, ◌++◌, arith, returns, All,
}
use waveguide.Base.Words.{IsU8}
use waveguide.Base.Text.{ascii, eq_bytes, encode_hex, decimal}
use waveguide.Base.Split.{Lacks}
use waveguide.Base.Decimal.{decimal-Lacks}
use waveguide.Ftl.Regex.{match_attribute}
use waveguide.Ftl.Connection.{Handler, System, Session, Reply}
use waveguide.Ftl.Server.{
  set_attribute, send_message, process_hmac, process_attribute, process_command, serve,
}
use waveguide.Ftl.Client.{connect_message}
use waveguide.Ftl.Meeting.{with_gaps, under}
use waveguide.Ftl.Meeting.Texts.{is_free-Lacks, append-Lacks, hex-Lacks, encode_hex-AreHex}
use waveguide.Ftl.Meeting.Commands.{Attribute, texts, set_all}

pub eq_bytes_same : (xs : List ℕ) → eq_bytes xs xs ≡ true
eq_bytes_same [] = refl
eq_bytes_same (x ∷ xs) = ground (arith, eq_bytes_same xs)

pub connect-Lacks : (id : ℕ) (hash : List ℕ) → All IsU8 hash → Lacks b'D' (connect_message id hash)
connect-Lacks id hash small =
    append-Lacks b'D' (ascii "CONNECT " ++ decimal id ++ ascii " $") (encode_hex hash)
      (append-Lacks b'D' (ascii "CONNECT " ++ decimal id) (ascii " $")
        (append-Lacks b'D' (ascii "CONNECT ") (decimal id)
          (is_free-Lacks b'D' (ascii "CONNECT ") refl) (decimal-Lacks id b'D' refl))
        (is_free-Lacks b'D' (ascii " $") refl))
      (hex-Lacks b'D' (encode_hex hash) refl (encode_hex-AreHex hash small))

message_some : (t : Attribute) → t.message ≢ []
unfolding match_attribute
message_some t e = let none_there = rw e at t.matches in absurd (ground arith)

module _ (H : Handler) (mac : List ℕ → List ℕ → List ℕ) (sys : System) where
  open H use {State, on_connect, get_hmac_key, on_play}

  abbrev pub done : Session State → Reply State
  done s = record { error = none; session = s }

  -- A message that is handled without an error, with the empty line behind it.
  pub serve_message :
      (m : List ℕ) (rest : List (System × List ℕ)) (clean : Bool) (last : System)
      (s s' : Session State)
      → m ≢ []
      → s.conn.connected ≡ true
      → s'.conn.connected ≡ true
      → process_command H mac sys m s ≡ returns (done s')
      → serve H mac ((sys, m) ∷ (sys, []) ∷ rest) clean last s ≡ serve H mac rest clean last s'
  unfolding serve
  serve_message [] rest clean last s s' some_text opened opened' handled = absurd (some_text refl)
  serve_message (c ∷ m) rest clean last s s' some_text opened opened' handled =
      ground (arith, opened, handled, opened')

  pub process_hmac_lem :
      (s : Session State)
      → sys.writes ≡ true
      → process_command H mac sys (ascii "HMAC") s
        ≡ returns (
            done (record s {
              conn = record (s.conn) {
                hmac_payload = sys.random;
                sent = s.conn.sent ++ ((ascii "200 " ++ encode_hex sys.random ++ ascii "\n") ∷ []);
              };
            }))
  unfolding process_command process_hmac send_message
  process_hmac_lem s writes = rw writes refl

  process_attribute_lem :
      (t : Attribute) (s : Session State)
      → s.conn.has_authenticated ≡ true
      → process_command H mac sys t.message s
        ≡ returns (
            done (record s {
              conn = record (s.conn) { metadata = set_attribute t.key t.value (s.conn.metadata) };
            }))
  unfolding process_command process_attribute
  process_attribute_lem t s proved =
      simp (t.not_hmac, t.no_disconnect, t.no_connect, t.no_ping, t.matches, proved) refl

  -- The attributes of a list, one after the other.
  pub serve_attributes :
      (ts : List Attribute) (rest : List (System × List ℕ)) (clean : Bool) (last : System)
      (s : Session State)
      → s.conn.connected ≡ true
      → s.conn.has_authenticated ≡ true
      → serve H mac (under sys (with_gaps (texts ts)) ++ rest) clean last s
        ≡ serve H mac rest clean last
            (record s { conn = record (s.conn) { metadata = set_all ts (s.conn.metadata) } })
  serve_attributes [] rest clean last s opened proved = refl
  serve_attributes (t ∷ ts) rest clean last s opened proved =
      let s' : Session State = record s {
        conn = record (s.conn) { metadata = set_attribute t.key t.value (s.conn.metadata) };
      } in
      serve_message t.message (under sys (with_gaps (texts ts)) ++ rest) clean last s s'
        (message_some t) opened opened (process_attribute_lem t s proved)
      ∙ serve_attributes ts rest clean last s' opened proved
