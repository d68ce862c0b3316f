-- ===== src/Webapp/Logs/Keys/RoundTrip.antt =====
-- What a key keeps of its filter.
use unouns_monorepo.Base.{
  ℕ, Option, none, some, List, [], ◌∷◌, ◌++◌, map, All, All-append, ◌≡◌, ◌≢◌, ◌==◌, if◌then◌else◌,
  refl, ap, ◌∙◌, arith, false, ==_refl,
}
use unouns_monorepo.Base.Text.{Text, split, onto_first}
use unouns_monorepo.Webapp.Logs.Keys.{
  Topic, absent, one, any, EventFilter, join_with, topic_text, text_of, topics_text, filter_to_key,
  topic_of_parts, text_topic, address_of_text, filter_of_pieces, key_to_filter,
}

-- the code unit does not stand in the text
abbrev pub Lacks : ℕ → Text → Type 0
Lacks c = All (λ x. x ≢ c)

==-false : (x c : ℕ) → x ≢ c → (x == c) ≡ false
==-false x c h = ground arith

split-Lacks : (c : ℕ) (s : Text) → Lacks c s → split c s ≡ s ∷ []
unfolding split
split-Lacks c [] h = refl
split-Lacks c (x ∷ s) h =
    ap (λ b. if b then [] ∷ split c s else onto_first x (split c s)) (==-false x c h.0)
    ∙ ap (onto_first x) (split-Lacks c s h.1)

split-append : (c : ℕ) (s t : Text) → Lacks c s → split c (s ++ c ∷ t) ≡ s ∷ split c t
unfolding split
split-append c [] t h = ap (λ b. if b then [] ∷ split c t else onto_first c (split c t)) (==_refl c)
split-append c (x ∷ s) t h =
    ap (λ b. if b then [] ∷ split c (s ++ c ∷ t) else onto_first x (split c (s ++ c ∷ t)))
      (==-false x c h.0)
    ∙ ap (onto_first x) (split-append c s t h.1)

split-join_with :
    (c : ℕ) (p : Text) (ps : List Text)
    → All (Lacks c) (p ∷ ps)
    → split c (join_with c (p ∷ ps)) ≡ p ∷ ps
unfolding join_with
split-join_with c p [] h = split-Lacks c p h.0
split-join_with c p (q ∷ ps) h =
    split-append c p (join_with c (q ∷ ps)) h.0 ∙ ap (λ r. p ∷ r) (split-join_with c q ps h.1)

-- no separator of a key stands in the text
abbrev pub IsPlain : Text → Type 0
IsPlain = All (λ x. (x ≢ b':') × (x ≢ b'-') × (x ≢ b';'))

abbrev pub IsPlainTopic : Topic → Type 0
IsPlainTopic absent = Unit
IsPlainTopic (one s) = IsPlain s
IsPlainTopic (any ts) = All IsPlain ts

abbrev pub AreTopics : Option (List Topic) → Type 0
AreTopics none = Unit
AreTopics (some topics) = All IsPlainTopic topics

-- what comes back for a topic: an absent or empty one is the code unit 0, a list of none is an empty
-- topic, and a list of one is that one
abbrev pub kept_topic : Topic → Topic
kept_topic absent = one (0 ∷ [])
kept_topic (one []) = one (0 ∷ [])
kept_topic (one (c ∷ s)) = one (c ∷ s)
kept_topic (any []) = one []
kept_topic (any (t ∷ [])) = one t
kept_topic (any (t ∷ u ∷ ts)) = any (t ∷ u ∷ ts)

-- no topics are one empty topic
abbrev pub kept_topics : Option (List Topic) → List Topic
kept_topics none = one [] ∷ []
kept_topics (some []) = one [] ∷ []
kept_topics (some (t ∷ ts)) = map kept_topic (t ∷ ts)

Lacks-join_with : (c d : ℕ) (ps : List Text) → d ≢ c → All (Lacks c) ps → Lacks c (join_with d ps)
unfolding join_with
Lacks-join_with c d [] h k = tt
Lacks-join_with c d (p ∷ []) h k = k.0
Lacks-join_with c d (p ∷ q ∷ ps) h k =
    All-append (λ x. x ≢ c) p (d ∷ join_with d (q ∷ ps)) k.0 (h, Lacks-join_with c d (q ∷ ps) h k.1)

IsPlain-Lacks : (s : Text) → IsPlain s → Lacks b':' s × (Lacks b'-' s × Lacks b';' s)
IsPlain-Lacks [] h = (tt, (tt, tt))
IsPlain-Lacks (x ∷ s) ((colon, dash, semicolon), h) =
    let (colons, (dashes, semicolons)) = IsPlain-Lacks s h in
    ((colon, colons), ((dash, dashes), (semicolon, semicolons)))

All-Lacks :
    (ts : List Text)
    → All IsPlain ts
    → All (Lacks b':') ts × (All (Lacks b'-') ts × All (Lacks b';') ts)
All-Lacks [] h = (tt, (tt, tt))
All-Lacks (t ∷ ts) (first, h) =
    let (colon, (dash, semicolon)) = IsPlain-Lacks t first in
    let (colons, (dashes, semicolons)) = All-Lacks ts h in
    ((colon, colons), ((dash, dashes), (semicolon, semicolons)))

topic_text-Lacks :
    (t : Topic) → IsPlainTopic t → Lacks b':' (topic_text t) × Lacks b'-' (topic_text t)
unfolding topic_text
topic_text-Lacks absent h = (((omega arith), tt), ((omega arith), tt))
topic_text-Lacks (one []) h = (((omega arith), tt), ((omega arith), tt))
topic_text-Lacks (one (c ∷ s)) h = let (colon, (dash, _)) = IsPlain-Lacks (c ∷ s) h in (colon, dash)
topic_text-Lacks (any ts) h =
    let (colons, (dashes, _)) = All-Lacks ts h in
    (
      Lacks-join_with b':' b';' ts (omega arith) colons,
      Lacks-join_with b'-' b';' ts (omega arith) dashes,
    )

text_topic-topic_text : (t : Topic) → IsPlainTopic t → text_topic (topic_text t) ≡ kept_topic t
unfolding text_topic topic_text
text_topic-topic_text absent h = ap topic_of_parts (split-Lacks b';' (0 ∷ []) (omega arith, tt))
text_topic-topic_text (one []) h = ap topic_of_parts (split-Lacks b';' (0 ∷ []) (omega arith, tt))
text_topic-topic_text (one (c ∷ s)) h =
    ap topic_of_parts (split-Lacks b';' (c ∷ s) (IsPlain-Lacks (c ∷ s) h).1.1)
text_topic-topic_text (any []) h = ap topic_of_parts (split-Lacks b';' [] tt)
text_topic-topic_text (any (t ∷ [])) h =
    ap topic_of_parts (split-join_with b';' t [] (All-Lacks (t ∷ []) h).1.1)
text_topic-topic_text (any (t ∷ u ∷ ts)) h =
    ap topic_of_parts (split-join_with b';' t (u ∷ ts) (All-Lacks (t ∷ u ∷ ts) h).1.1)

topics-Lacks :
    (ts : List Topic)
    → All IsPlainTopic ts
    → All (Lacks b':') (map topic_text ts) × All (Lacks b'-') (map topic_text ts)
topics-Lacks [] h = (tt, tt)
topics-Lacks (t ∷ ts) (first, h) =
    let (colon, dash) = topic_text-Lacks t first in
    let (colons, dashes) = topics-Lacks ts h in ((colon, colons), (dash, dashes))

map-text_topic :
    (ts : List Topic) → All IsPlainTopic ts → map text_topic (map topic_text ts) ≡ map kept_topic ts
map-text_topic [] h = refl
map-text_topic (t ∷ ts) h = cc (text_topic-topic_text t h.0, map-text_topic ts h.1)

topics_text-Lacks :
    (topics : Option (List Topic)) → AreTopics topics → Lacks b':' (topics_text topics)
unfolding topics_text
topics_text-Lacks none h = tt
topics_text-Lacks (some ts) h =
    Lacks-join_with b':' b'-' (map topic_text ts) (omega arith) (topics-Lacks ts h).0

split-topics_text :
    (topics : Option (List Topic))
    → AreTopics topics
    → map text_topic (split b'-' (topics_text topics)) ≡ kept_topics topics
unfolding topics_text
split-topics_text none h =
    ap (map text_topic) (split-Lacks b'-' [] tt)
    ∙ ap (λ t. t ∷ []) (text_topic-topic_text (any []) tt)
split-topics_text (some []) h =
    ap (map text_topic) (split-Lacks b'-' [] tt)
    ∙ ap (λ t. t ∷ []) (text_topic-topic_text (any []) tt)
split-topics_text (some (t ∷ ts)) h =
    ap (map text_topic)
      (split-join_with b'-' (topic_text t) (map topic_text ts) (topics-Lacks (t ∷ ts) h).1)
    ∙ map-text_topic (t ∷ ts) h

-- The filter of the key of a filter without a separator in its address and topics has its address, if
-- that is not empty, and its topics, but for absent ones and lists of fewer than two, and no first block.
pub key_to_filter-filter_to_key :
    (filter : EventFilter)
    → Lacks b':' (text_of filter.address)
    → AreTopics filter.topics
    → key_to_filter (filter_to_key filter)
      ≡ some (record {
        address = address_of_text (text_of filter.address);
        topics = some (kept_topics filter.topics);
        from_block = none;
      })
unfolding key_to_filter filter_to_key
key_to_filter-filter_to_key filter plain topics =
    let a = text_of filter.address in
    let t = topics_text filter.topics in
    ap filter_of_pieces (
      split-append b':' a t plain
      ∙ ap (λ r. a ∷ r) (split-Lacks b':' t (topics_text-Lacks filter.topics topics)))
    ∙ ap (λ ts. some (record { address = address_of_text a; topics = some ts; from_block = none }))
        (split-topics_text filter.topics topics)
