-- ===== src/Webapp/Logs/Keys/Tests.antt =====
-- Examples of the keys of filters.
use unouns_monorepo.Base.{none, some, [], ◌∷◌, ◌≡◌, arith}
use unouns_monorepo.Webapp.Logs.Keys.{absent, one, any, EventFilter, filter_to_key, key_to_filter}
use unouns_monorepo.Webapp.Logs.Keys.RoundTrip.{key_to_filter-filter_to_key}

abbrev filter : EventFilter
filter = record {
  address = some (b'0' ∷ b'x' ∷ []);
  topics = some (one (b'a' ∷ []) ∷ absent ∷ any ((b'b' ∷ []) ∷ (b'c' ∷ []) ∷ []) ∷ []);
  from_block = some 12985453;
}

key_to_filter-filter_to_key_example :
    key_to_filter (filter_to_key filter)
    ≡ some (record {
      address = some (b'0' ∷ b'x' ∷ []);
      topics = some (one (b'a' ∷ []) ∷ one (0 ∷ []) ∷ any ((b'b' ∷ []) ∷ (b'c' ∷ []) ∷ []) ∷ []);
      from_block = none;
    })
key_to_filter-filter_to_key_example = key_to_filter-filter_to_key filter (omega arith) (omega arith)
