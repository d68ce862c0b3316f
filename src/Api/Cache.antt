-- ===== src/Api/Cache.antt =====
-- A token that has been answered for is answered from the cache.
use unouns_monorepo.Base.{
  false, some, String, str_eq, if◌then◌else◌, ◌≡◌, ◌≢◌, ap, ◌∙◌, arith, eq_iff,
}
use unouns_monorepo.Base.Table.{load, save, load-save, load-save_self}
use text.Mathlib.TextLemmas.{append_cancel_left}
use unouns_monorepo.Api.{
  TokenMetadata, Services, ReadsBack, World, found, store_metadata, fetch_metadata,
  get_metadata_key, parsed_answer, cached_or, get_token_metadata,
}

str_eq-false : (s t : String) → s ≢ t → str_eq s t ≡ false
str_eq-false s t h = ground (arith, eq_iff s t)

-- the metadata stands in the cache under the key
abbrev Caches : (services : Services) → String → TokenMetadata → World services.Json → Type 0
Caches services key m w =
    (text : services.Json) × (load w.redis key ≡ some text)
    × (services.is_empty text ≡ false)
    × (services.parse text ≡ some m)

-- the metadata is in the cache afterwards, and only the row of the key may have changed
abbrev Filled :
    (services : Services)
    → String
    → TokenMetadata
    → World services.Json
    → World services.Json
    → Type 0
Filled services key m w w' =
    Caches services key m w'
    × ((other : String) → key ≢ other → load w'.redis other ≡ load w.redis other)

-- what is written is in the cache, and no other row changes
save-Filled :
    (services : Services) (laws : ReadsBack services) (key : String) (m : TokenMetadata)
    (w w' : World services.Json)
    → w'.redis ≡ save w.redis key (services.stringify m)
    → Filled services key m w w'
save-Filled services laws key m w w' saved =
    let text = services.stringify m in
    (
      (
        text,
        ap (λ redis. load redis key) saved ∙ load-save_self w.redis key text,
        laws.is_empty-stringify m,
        laws.parse-stringify m,
      ),
      λ other differs.
          ap (λ redis. load redis other) saved
          ∙ load-save w.redis key other text
          ∙ ap (λ b. if b then some text else load w.redis other) (str_eq-false key other differs),
    )

fetch_metadata-saved :
    (services : Services) (token_id key : String) (m : TokenMetadata) (w w' : World services.Json)
    → fetch_metadata services token_id key w ≡ (found m, w')
    → w'.redis ≡ save w.redis key (services.stringify m)
unfolding fetch_metadata store_metadata
fetch_metadata-saved services token_id key m w w' h = ground arith

fetch_metadata-Filled :
    (services : Services) (laws : ReadsBack services) (token_id key : String) (m : TokenMetadata)
    (w w' : World services.Json)
    → fetch_metadata services token_id key w ≡ (found m, w')
    → Filled services key m w w'
fetch_metadata-Filled services laws token_id key m w w' h =
    save-Filled services laws key m w w' (fetch_metadata-saved services token_id key m w w' h)

-- what is in the cache is answered
Caches-get_token_metadata :
    (services : Services) (token_id : String) (m : TokenMetadata) (w : World services.Json)
    → Caches services (get_metadata_key token_id) m w
    → get_token_metadata services token_id w ≡ (found m, w)
unfolding get_token_metadata
Caches-get_token_metadata services token_id m w (text, row, filled, parsed) =
    let fetched = fetch_metadata services token_id (get_metadata_key token_id) w in
    ap (cached_or services w fetched) row
    ∙ ap (λ b. if b then fetched else (parsed_answer (services.parse text), w)) filled
    ∙ ap (λ o. (parsed_answer o, w)) parsed

Filled-get_token_metadata :
    (services : Services) (laws : ReadsBack services) (token_id : String) (m : TokenMetadata)
    (w w' : World services.Json)
    → get_token_metadata services token_id w ≡ (found m, w')
    → Filled services (get_metadata_key token_id) m w w'
unfolding get_token_metadata
Filled-get_token_metadata services laws token_id m w w' h =
    grind (arith, fetch_metadata-Filled services laws token_id (get_metadata_key token_id) m w w')

get_metadata_key-injective : (a b : String) → get_metadata_key a ≡ get_metadata_key b → a ≡ b
unfolding get_metadata_key
get_metadata_key-injective a b h = append_cancel_left "metadata_" a b h

-- A token that has been answered for with metadata is answered for in the same way from then on, with no
-- change of the cache and no picture stored again, where JSON reads back what it has written; and the
-- cached row of another token stays as it was.
pub get_token_metadata-again :
    (services : Services) (laws : ReadsBack services) (token_id other : String) (m : TokenMetadata)
    (w w' : World services.Json)
    → get_token_metadata services token_id w ≡ (found m, w')
    → token_id ≢ other
    → (get_token_metadata services token_id w' ≡ (found m, w'))
      × (load w'.redis (get_metadata_key other) ≡ load w.redis (get_metadata_key other))
get_token_metadata-again services laws token_id other m w w' h differs =
    let (cached, others) = Filled-get_token_metadata services laws token_id m w w' h in
    (
      Caches-get_token_metadata services token_id m w' cached,
      others (get_metadata_key other) (λ e. differs (get_metadata_key-injective token_id other e)),
    )
