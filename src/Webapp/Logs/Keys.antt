-- ===== src/Webapp/Logs/Keys.antt =====
-- packages/nouns-webapp/src/utils/logParsing.ts: the key of a filter of events, and the filter of a key.
-- A text is its list of code units.
pub mod RoundTrip
mod Tests
use unouns_monorepo.Base.{ℕ, Option, none, some, List, [], ◌∷◌, ◌++◌, map}
use unouns_monorepo.Base.Text.{Text, split}

-- no topic, one topic, or one of several
pub data Topic : Type 0 where
  absent : Topic
  one : Text → Topic
  any : List Text → Topic

pub record EventFilter : Type 0 where
  pub address : Option Text
  pub topics : Option (List Topic)
  pub from_block : Option ℕ

-- `pieces.join(c)` for a separator of one code unit
unfoldable pub join_with : ℕ → List Text → Text
join_with c [] = []
join_with c (p ∷ []) = p
join_with c (p ∷ q ∷ ps) = p ++ c ∷ join_with c (q ∷ ps)

-- an empty text is falsy, and an empty list is not
unfoldable pub topic_text : Topic → Text
unfolding join_with
topic_text absent = 0 ∷ []
topic_text (one []) = 0 ∷ []
topic_text (one (c ∷ s)) = c ∷ s
topic_text (any ts) = join_with b';' ts

abbrev pub text_of : Option Text → Text
text_of none = []
text_of (some s) = s

unfoldable pub topics_text : Option (List Topic) → Text
unfolding join_with topic_text
topics_text none = []
topics_text (some topics) = join_with b'-' (map topic_text topics)

unfoldable pub filter_to_key : EventFilter → Text
unfolding topics_text
filter_to_key filter = text_of filter.address ++ b':' ∷ topics_text filter.topics

-- `parts.length === 1`
unfoldable pub topic_of_parts : List Text → Topic
topic_of_parts (p ∷ []) = one p
topic_of_parts parts = any parts

unfoldable pub text_topic : Text → Topic
unfolding topic_of_parts
text_topic s = topic_of_parts (split b';' s)

abbrev pub address_of_text : Text → Option Text
address_of_text [] = none
address_of_text (c ∷ s) = some (c ∷ s)

-- `none` where `pcs[1]` is undefined, which throws
unfoldable pub filter_of_pieces : List Text → Option EventFilter
unfolding text_topic
filter_of_pieces [] = none
filter_of_pieces (address ∷ []) = none
filter_of_pieces (address ∷ topics ∷ rest) = some (record {
  address = address_of_text address;
  topics = some (map text_topic (split b'-' topics));
  from_block = none;
})

unfoldable pub key_to_filter : Text → Option EventFilter
unfolding filter_of_pieces
key_to_filter key = filter_of_pieces (split b':' key)
