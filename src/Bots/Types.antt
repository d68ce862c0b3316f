-- ===== src/Bots/Types.antt =====
-- packages/nouns-bots/src/types.ts, cache.ts, config.ts and clients.ts: the data of the bots, what
-- they keep in Redis, and what they have sent.
--
-- Each Redis key is a field of the cache, and the keys with a proposal's id a function of the id. A
-- number is read back as it was written, and a proposal as `JSON.parse` gives it back.
use unouns_monorepo.Base.{ℕ, Bool, Option, none, some, List, [], ◌∷◌, ◌++◌, if◌then◌else◌}
use unouns_monorepo.Base.Text.{Text}
use unouns_monorepo.Subgraph.Schema.{Status}

pub data VoteDirection : Type 0 where
  against for abstain : VoteDirection

pub record Vote : Type 0 where
  pub id : Text
  pub voter : Text
  pub votes : ℕ
  pub support_detailed : VoteDirection
  pub reason : Option Text

pub record Proposal : Type 0 where
  pub id : ℕ
  pub proposer : Text
  pub description : Text
  pub status : Status
  pub quorum_votes : ℕ
  pub proposal_threshold : ℕ
  pub start_block : ℕ
  pub end_block : ℕ
  pub execution_eta : ℕ
  pub votes : List Vote

pub record Bid : Type 0 where
  pub id : Text
  pub amount : ℕ
  pub bidder : Text

-- `endTime` is in seconds
pub record AuctionBids : Type 0 where
  pub id : ℕ
  pub end_time : ℕ
  pub bids : List Bid

pub record Cache : Type 0 where
  pub auction : Option ℕ
  pub bid : Option Text
  pub reply_tweet_id : Option Text
  pub auction_ending_soon : Option ℕ
  pub proposals : ℕ → Option Proposal
  pub expiry_warning_sent : ℕ → Bool

-- `Number(id)`, or 0 where the key is not set
abbrev or_0 : Option ℕ → ℕ
or_0 none = 0
or_0 (some n) = n

abbrev pub get_auction_cache : Cache → ℕ
get_auction_cache c = or_0 c.auction

abbrev pub get_auction_ending_soon_cache : Cache → ℕ
get_auction_ending_soon_cache c = or_0 c.auction_ending_soon

abbrev pub get_bid_cache : Cache → Text
get_bid_cache c = elim c.bid [ none ↦ [] | some id ↦ id ]

pub record Tweet : Type 0 where
  pub text : Text
  pub reply_to : Option Text

-- an embed that is sent to one of the webhooks
pub record DiscordMessage : Type 0 where
  pub webhook : ℕ
  pub title : Text
  pub description : Text

-- What the bots have done: the cache, and the messages and counter requests sent, the oldest first.
pub record World : Type 0 where
  pub cache : Cache
  pub tweets : List Tweet
  pub messages : List DiscordMessage
  pub counters : List Text

-- The services that the bots ask: ENS (an address without a name gives `none`, or an empty text), the
-- picture of a Noun (whether there is one), `formatEther`, and the id that Twitter gives a tweet, by
-- the number of tweets before it.
pub record Services : Type 0 where
  pub lookup_address : Text → Option Text
  pub has_picture : ℕ → Bool
  pub format_ether : ℕ → Text
  pub tweet_id : ℕ → Text

pub data Handler : Type 0 where
  twitter : Handler
  discord : List ℕ → Handler

-- `TWITTER_ENABLED` and `DISCORD_ENABLED`; the internal and the public webhook
pub record Config : Type 0 where
  pub twitter_enabled : Bool
  pub discord_enabled : Bool

abbrev pub auction_lifecycle_handlers : Config → List Handler
auction_lifecycle_handlers c =
    (if c.twitter_enabled then twitter ∷ [] else [])
    ++ (if c.discord_enabled then discord (0 ∷ 1 ∷ []) ∷ [] else [])
