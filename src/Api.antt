-- ===== src/Api.antt =====
-- packages/nouns-api/src: the metadata of a token, from the cache or from the contract. A text that the
-- code cuts is a list of code units.
pub mod Cache
mod Tests
use unouns_monorepo.Base.{
  Bool, true, false, Option, none, some, String, List, [], ◌∷◌, drop, if◌then◌else◌, ◌≡◌,
}
use Prim.Native.String.{◌++◌}
use unouns_monorepo.Base.Text.{Text}
use unouns_monorepo.Base.Table.{Table, load, save}

pub record TokenMetadata : Type 0 where
  pub name : Text
  pub description : Text
  pub image : Text

-- `json_of_base64` is `JSON.parse` of what Buffer decodes, `none` where it throws; `png_of_base64` is the
-- picture that sharp makes of it; `store_blob` gives the identifier of a content.
-- A value of `Json` is a text of the cache.
pub record Services : Type 1 where
  pub Json : Type 0
  pub data_uri : String → Option Text
  pub json_of_base64 : Text → Option TokenMetadata
  pub png_of_base64 : Text → Option Text
  pub store_blob : Text → Option Text
  pub stringify : TokenMetadata → Json
  pub parse : Json → Option TokenMetadata
  pub is_empty : Json → Bool

-- JSON reads back what it has written, and an object is written as a text that is not empty.
pub record ReadsBack (services : Services) : Type 0 where
  pub parse-stringify : (m : TokenMetadata) → services.parse (services.stringify m) ≡ some m
  pub is_empty-stringify : (m : TokenMetadata) → services.is_empty (services.stringify m) ≡ false

-- the cache, and the pictures that have been stored, the last one first
pub record World (Json : Type 0) : Type 0 where
  pub redis : Table Json
  pub blobs : List Text

-- the promise gives metadata or undefined, or is rejected
pub data Answer : Type 0 where
  found : TokenMetadata → Answer
  undefined rejected : Answer

unfoldable pub get_metadata_key : String → String
get_metadata_key token_id = "metadata_" ++ token_id

unfoldable pub ipfs : Text → Text
ipfs cid = b'i' ∷ b'p' ∷ b'f' ∷ b's' ∷ b':' ∷ b'/' ∷ b'/' ∷ cid

unfoldable pub store_metadata :
    (services : Services)
    → String
    → TokenMetadata
    → Text
    → World services.Json
    → Answer × World services.Json
unfolding ipfs
store_metadata services key m png w = elim (services.store_blob png) [
  | none ↦ (rejected, w)
  | some cid ↦
      let metadata : TokenMetadata = record {
        name = m.name;
        description = m.description;
        image = ipfs cid;
      } in
      (
        found metadata,
        record { redis = save w.redis key (services.stringify metadata); blobs = png ∷ w.blobs },
      )
]

unfoldable pub fetch_metadata :
    (services : Services) → String → String → World services.Json → Answer × World services.Json
unfolding store_metadata
fetch_metadata services token_id key w = elim (services.data_uri token_id) [
  | none ↦ (undefined, w)
  | some uri ↦ elim (services.json_of_base64 (drop 29 uri)) [
    | none ↦ (rejected, w)
    | some m ↦ elim (services.png_of_base64 (drop 26 m.image)) [
      | none ↦ (rejected, w)
      | some png ↦ store_metadata services key m png w
    ]
  ]
]

abbrev pub parsed_answer : Option TokenMetadata → Answer
parsed_answer none = rejected
parsed_answer (some m) = found m

-- an empty text in the cache is falsy
abbrev pub cached_or :
    (services : Services)
    → World services.Json
    → Answer × World services.Json
    → Option services.Json
    → Answer × World services.Json
cached_or services w fetched none = fetched
cached_or services w fetched (some cached) =
    if services.is_empty cached then fetched else (parsed_answer (services.parse cached), w)

unfoldable pub get_token_metadata :
    (services : Services) → String → World services.Json → Answer × World services.Json
unfolding fetch_metadata
get_token_metadata services token_id w =
    let key = get_metadata_key token_id in
    cached_or services w (fetch_metadata services token_id key w) (load w.redis key)

pub data HttpResponse : Type 0 where
  ok : TokenMetadata → HttpResponse
  bad_request server_error no_response : HttpResponse

-- `/metadata/:tokenId`; `is_valid` is the check that the id is a number from 0 to 1000. A rejection is
-- not handled, and no response is sent.
unfoldable pub get_metadata :
    (services : Services)
    → (String → Bool)
    → String
    → World services.Json
    → HttpResponse × World services.Json
get_metadata services is_valid token_id w =
    let (answer, w') = get_token_metadata services token_id w in
    if is_valid token_id
    then (
      elim answer as (λ x. HttpResponse) [
        | found m ↦ ok m
        | undefined ↦ server_error
        | rejected ↦ no_response
      ],
      w',
    )
    else (bad_request, w)
