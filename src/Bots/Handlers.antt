-- ===== src/Bots/Handlers.antt =====
-- packages/nouns-bots/src/handlers: what the Twitter and the Discord handler do with each notice. The
-- two run at once in the source; they share nothing, so that one after the other comes to the same.
pub mod Frames
use unouns_monorepo.Base.{
  ℕ, Option, none, some, List, [], ◌∷◌, ◌++◌, if◌then◌else◌, codes, length, map,
}
use unouns_monorepo.Base.Text.{Text}
use unouns_monorepo.Bots.Types.{
  Vote, Proposal, Bid, Cache, Tweet, DiscordMessage, World, Services, Handler, twitter, discord,
}
use unouns_monorepo.Bots.Messages.{
  format_auction_started_tweet_text, format_bid_message_text, get_auction_ending_soon_tweet_text,
  format_new_governance_proposal_text, format_updated_governance_proposal_status_text,
  format_proposal_at_risk_of_expiry_text, format_new_governance_vote_text, number_text,
}

-- a call of a method of `IAuctionLifecycleHandler`
pub data Notice : Type 0 where
  new_auction : ℕ → Notice
  new_bid : ℕ → Bid → Notice
  auction_ending_soon : ℕ → Notice
  new_proposal : Proposal → Notice
  updated_proposal_status : Proposal → Notice
  proposal_at_risk_of_expiry : Proposal → Notice
  governance_vote : Proposal → Vote → Notice

-- send a tweet and keep its id for the next reply
unfoldable pub send_tweet : Services → Text → Option Text → World → World
send_tweet services text reply_to w =
    let c = w.cache in
    record w {
      cache = record c { reply_tweet_id = some (services.tweet_id (length w.tweets)) };
      tweets = w.tweets ++ record { text = text; reply_to = reply_to } ∷ [];
    }

-- reply to the tweet that is kept, if there is one
unfoldable pub reply_tweet : Services → Text → World → World
unfolding send_tweet
reply_tweet services text w = elim w.cache.reply_tweet_id [
  | none ↦ w
  | some [] ↦ w
  | some (c ∷ id) ↦ send_tweet services text (some (c ∷ id)) w
]

-- the methods of `TwitterAuctionLifecycleHandler`; it has none for proposals
unfoldable pub twitter_handle : Services → Notice → World → World
unfolding send_tweet reply_tweet format_auction_started_tweet_text format_bid_message_text
    get_auction_ending_soon_tweet_text
twitter_handle services (new_auction id) w =
    if services.has_picture id
    then send_tweet services (format_auction_started_tweet_text id) none w
    else w
twitter_handle services (new_bid id bid) w =
    reply_tweet services (format_bid_message_text services id bid) w
twitter_handle services (auction_ending_soon id) w =
    reply_tweet services get_auction_ending_soon_tweet_text w
twitter_handle services (new_proposal p) w = w
twitter_handle services (updated_proposal_status p) w = w
twitter_handle services (proposal_at_risk_of_expiry p) w = w
twitter_handle services (governance_vote p vote) w = w

-- send an embed to every webhook
unfoldable pub send_embed : List ℕ → Text → Text → World → World
send_embed clients title description w = record w {
  messages =
      w.messages
      ++ map (λ c. record { webhook = c; title = title; description = description }) clients;
}

-- the methods of `DiscordAuctionLifecycleHandler`; it has none for an auction that ends soon
unfoldable pub discord_handle : Services → List ℕ → Notice → World → World
unfolding send_embed format_bid_message_text format_new_governance_proposal_text
    format_updated_governance_proposal_status_text format_proposal_at_risk_of_expiry_text
    format_new_governance_vote_text
discord_handle services clients (new_auction id) w =
    if services.has_picture id
    then send_embed clients (codes "New Auction Discovered")
        (codes "An auction has started for Noun #" ++ number_text id) w
    else w
discord_handle services clients (new_bid id bid) w =
    send_embed clients (codes "New Bid Placed") (format_bid_message_text services id bid) w
discord_handle services clients (auction_ending_soon id) w = w
discord_handle services clients (new_proposal p) w =
    send_embed clients (codes "New Governance Proposal") (format_new_governance_proposal_text p) w
discord_handle services clients (updated_proposal_status p) w =
    send_embed clients (codes "Proposal Status Update")
      (format_updated_governance_proposal_status_text p) w
discord_handle services clients (proposal_at_risk_of_expiry p) w =
    send_embed clients (codes "Proposal At-Risk of Expiry")
      (format_proposal_at_risk_of_expiry_text p) w
discord_handle services clients (governance_vote p vote) w =
    send_embed clients (codes "New Proposal Vote") (format_new_governance_vote_text services p vote)
      w

abbrev pub handle : Services → Notice → Handler → World → World
handle services notice twitter w = twitter_handle services notice w
handle services notice (discord clients) w = discord_handle services clients notice w

-- `Promise.all(auctionLifecycleHandlers.map(...))`
unfoldable pub notify : Services → List Handler → Notice → World → World
unfolding twitter_handle discord_handle
notify services [] notice w = w
notify services (h ∷ handlers) notice w =
    notify services handlers notice (handle services notice h w)
