-- ===== src/Api/Tests.antt =====
-- Examples of the API.
use unouns_monorepo.Base.{false, some, [], ◌∷◌, ◌≡◌, refl, eq_iff}
use unouns_monorepo.Base.Table.{load, save}
use unouns_monorepo.Api.{
  TokenMetadata, Services, ReadsBack, World, found, get_metadata_key, get_token_metadata,
  get_metadata, bad_request,
}
use unouns_monorepo.Api.Cache.{get_token_metadata-again}

abbrev on_chain : TokenMetadata
on_chain = record { name = b'N' ∷ []; description = []; image = [] }

-- the JSON of a value is the value
abbrev services : Services
services = record {
  Json = TokenMetadata;
  data_uri = λ token_id. some [];
  json_of_base64 = λ t. some on_chain;
  png_of_base64 = λ t. some (7 ∷ []);
  store_blob = λ png. some (b'Q' ∷ png);
  stringify = λ m. m;
  parse = λ m. some m;
  is_empty = λ m. false;
}

services-ReadsBack : ReadsBack services
services-ReadsBack = record { parse-stringify = λ m. refl; is_empty-stringify = λ m. refl }

abbrev empty_world : World TokenMetadata
empty_world = record { redis = []; blobs = [] }

abbrev stored : TokenMetadata
stored = record on_chain { image = b'i' ∷ b'p' ∷ b'f' ∷ b's' ∷ b':' ∷ b'/' ∷ b'/' ∷ b'Q' ∷ 7 ∷ [] }

abbrev filled_world : World TokenMetadata
filled_world = record { redis = (get_metadata_key "5", stored) ∷ []; blobs = (7 ∷ []) ∷ [] }

first_time : get_token_metadata services "5" empty_world ≡ (found stored, filled_world)
unfolding get_token_metadata load save
first_time = refl

get_token_metadata-again_example :
    (get_token_metadata services "5" filled_world ≡ (found stored, filled_world))
    × (load filled_world.redis (get_metadata_key "6")
        ≡ load empty_world.redis (get_metadata_key "6"))
get_token_metadata-again_example =
    get_token_metadata-again services services-ReadsBack "5" "6" stored empty_world filled_world
      first_time (λ e. cc ((eq_iff "5" "6").1 e))

out_of_range : get_metadata services (λ id. false) "5000" empty_world ≡ (bad_request, empty_world)
unfolding get_metadata
out_of_range = refl
