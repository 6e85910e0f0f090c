-- ===== src/Services/Glimesh.antt =====
-- pkg/services/glimesh/glimesh.go: the service over the GraphQL API of Glimesh.
-- The GraphQL and the HTTP client are parameters, which answer each call in view of the calls before it.
pub mod Rounds
use waveguide.Base.{
  ℕ, Bool, true, false, Option, none, some, List, [], ◌∷◌, ◌++◌, ◌==◌, not, if◌then◌else◌,
}
use waveguide.Base.Text.{ascii, decimal}
use waveguide.Base.Split.{atoi_uint32}
use waveguide.Control.Report.{StreamMetadata}
use waveguide.Control.Remote.{Service}

pub record Config : Type 0 where
  pub endpoint : List ℕ
  pub client_id : List ℕ
  pub client_secret : List ℕ

-- The multipart body of `uploadThumbnail`, and where it is posted.
pub record Upload : Type 0 where
  pub url : List ℕ
  pub field : List ℕ
  pub file_name : List ℕ
  pub image : List ℕ
  pub query : List ℕ

-- A query or a mutation has the field with its arguments, the selection in it, and the variables.
pub data Call : Type 0 where
  query : List ℕ → List ℕ → List ℕ → Call
  mutate : List ℕ → List ℕ → List ℕ → Option StreamMetadata → Call
  post : Upload → Call

-- What the clients answer: the text of the selection, or the status of the response; `none` is an error.
-- The flags say whether the body and the request of an upload are made.
pub record Api : Type 0 where
  pub answers : Call → List Call → Option (List ℕ)
  pub status : Upload → List Call → Option ℕ
  pub form_made : Bool
  pub form_closes : Bool
  pub request_made : Bool

abbrev pub token_url : List ℕ
token_url = ascii "/api/oauth/token"

abbrev pub api_url : List ℕ
api_url = ascii "/api/graph"

-- What `Connect` gives to the client of the credentials, and the address of the GraphQL client.
pub record Connected : Type 0 where
  pub client_id : List ℕ
  pub client_secret : List ℕ
  pub token : List ℕ
  pub scopes : List (List ℕ)
  pub graph : List ℕ

unfoldable pub connect : Config → Connected
connect config = record {
  client_id = config.client_id;
  client_secret = config.client_secret;
  token = config.endpoint ++ token_url;
  scopes = ascii "streamkey" ∷ [];
  graph = config.endpoint ++ api_url;
}

-- The thumbnail's mutation.
abbrev pub upload_query : ℕ → List ℕ
upload_query sid =
    ascii "mutation {\n\t\tuploadStreamThumbnail(streamId: "
    ++ decimal sid
    ++ ascii ", thumbnail: \"thumbdata\") {\n\t\t\tid\n\t\t}\n\t}"

-- The calls that went out, the latest first.
abbrev pub Calls : Type 0
Calls = List Call

module _ (config : Config) (api : Api) where
  -- `client.Query` and `client.Mutate`: the text that is selected.
  abbrev pub ask : Call → Calls → Option (List ℕ) × Calls
  ask call calls = (api.answers call calls, call ∷ calls)

  unfoldable pub get_hmac_key : ℕ → Calls → Option (List ℕ) × Calls
  get_hmac_key id calls =
      ask (query (ascii "channel(id: $id)") (ascii "HmacKey") (decimal id)) calls

  -- An id that is no number is an error, and one of more than 32 bits is cut.
  unfoldable pub start_stream : ℕ → Calls → Option ℕ × Calls
  start_stream id calls =
      let (answer, calls') =
        ask (mutate (ascii "startStream(channelId: $id)") (ascii "Id") (decimal id) none) calls in
      (elim answer [ none ↦ none | some text ↦ atoi_uint32 text ], calls')

  -- Whether there was no error.
  abbrev pub went : Option (List ℕ) × Calls → Bool × Calls
  went (none, calls) = (false, calls)
  went (some text, calls) = (true, calls)

  unfoldable pub end_stream : ℕ → Calls → Bool × Calls
  end_stream sid calls =
      went (ask (mutate (ascii "endStream(streamId: $id)") (ascii "Id") (decimal sid) none) calls)

  unfoldable pub update_stream_metadata : ℕ → StreamMetadata → Calls → Bool × Calls
  update_stream_metadata sid metadata calls = went (
      ask
        (mutate (ascii "logStreamMetadata(streamId: $id, metadata: $metadata)") (ascii "Id")
          (decimal sid) (some metadata))
        calls)

  unfoldable pub upload_thumbnail : List ℕ → List ℕ → List ℕ → Calls → Bool × Calls
  upload_thumbnail url query_text image calls =
      let upload : Upload = record {
        url = url;
        field = ascii "thumbdata";
        file_name = ascii "thumbnail.jpg";
        image = image;
        query = query_text;
      } in
      if not api.form_made
      then (false, calls)
      else if not api.form_closes
      then (false, calls)
      else if not api.request_made
      then (false, calls)
      else elim (api.status upload calls) [
        | none ↦ (false, post upload ∷ calls)
        | some status ↦ (status == 200, post upload ∷ calls)
      ]

  unfoldable pub send_jpeg_preview_image : ℕ → List ℕ → Calls → Bool × Calls
  unfolding upload_thumbnail
  send_jpeg_preview_image sid img calls =
      upload_thumbnail (config.endpoint ++ api_url) (upload_query sid) img calls

  abbrev pub glimesh : Service
  glimesh = record {
    State = Calls;
    get_hmac_key = get_hmac_key;
    start_stream = start_stream;
    end_stream = end_stream;
    update_stream_metadata = update_stream_metadata;
    send_jpeg_preview_image = send_jpeg_preview_image;
  }
