-- ===== src/Control/Http.antt =====
-- http.go: the address of the HTTP server and the way in which it is started.
use waveguide.Base.{ℕ, ◌||◌, List, ◌++◌, if◌then◌else◌}
use waveguide.Base.Text.{ascii, eq_bytes}

-- The fields of `Config` that are about the server.
pub record Config : Type 0 where
  pub http_server_type : List ℕ
  pub http_address : List ℕ
  pub https_hostname : List ℕ
  pub https_cert : List ℕ
  pub https_key : List ℕ

-- What `StartHTTPServer` listens on; `fatal` ends the process.
pub data Listener : Type 0 where
  acme http : List ℕ → Listener
  https : List ℕ → List ℕ → List ℕ → Listener
  fatal : Listener

unfoldable pub start_http_server : Config → Listener
start_http_server c =
    if eq_bytes (c.http_server_type) (ascii "acme")
    then acme c.https_hostname
    else if eq_bytes (c.http_server_type) (ascii "https")
    then https c.http_address c.https_cert c.https_key
    else if eq_bytes (c.http_server_type) (ascii "http")
    then http c.http_address
    else fatal

unfoldable pub http_server_url : Config → List ℕ
http_server_url c =
    if eq_bytes (c.http_server_type) (ascii "acme") || eq_bytes (c.http_server_type) (ascii "https")
    then ascii "https" ++ ascii "://" ++ c.https_hostname
    else ascii "http" ++ ascii "://" ++ c.http_address
