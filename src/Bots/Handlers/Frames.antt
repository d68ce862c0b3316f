-- ===== src/Bots/Handlers/Frames.antt =====
-- What the handlers of packages/nouns-bots/src/handlers leave as it is.
use unouns_monorepo.Base.{
  arith, ℕ, ◌≡◌, refl, ◌∙◌, Bool, true, false, Option, none, List, [], ◌∷◌, if◌then◌else◌,
}
use unouns_monorepo.Base.Text.{Text}
use unouns_monorepo.Bots.Types.{Cache, World, Services, Handler, twitter, discord}
use unouns_monorepo.Bots.Messages.{format_auction_started_tweet_text}
use unouns_monorepo.Bots.Handlers.{
  Notice, new_auction, new_bid, auction_ending_soon, new_proposal, updated_proposal_status,
  proposal_at_risk_of_expiry, governance_vote, send_tweet, reply_tweet, twitter_handle, send_embed,
  discord_handle, handle, notify,
}

-- The handlers write one key of the cache, the id of the tweet to reply to.
pub record SameKeys (c d : Cache) : Type 0 where
  pub auction : d.auction ≡ c.auction
  pub bid : d.bid ≡ c.bid
  pub ending : d.auction_ending_soon ≡ c.auction_ending_soon
  pub proposals : d.proposals ≡ c.proposals
  pub warned : d.expiry_warning_sent ≡ c.expiry_warning_sent

pub same : (c : Cache) → SameKeys c c
same c = record { auction = refl; bid = refl; ending = refl; proposals = refl; warned = refl }

pub SameKeys-trans : (b c d : Cache) → SameKeys b c → SameKeys c d → SameKeys b d
SameKeys-trans b c d h k = record {
  auction = k.auction ∙ h.auction;
  bid = k.bid ∙ h.bid;
  ending = k.ending ∙ h.ending;
  proposals = k.proposals ∙ h.proposals;
  warned = k.warned ∙ h.warned;
}

send_tweet-SameKeys :
    (services : Services) (text : Text) (reply : Option Text) (w : World)
    → SameKeys w.cache (send_tweet services text reply w).cache
unfolding send_tweet
send_tweet-SameKeys services text reply w = record {
  auction = refl;
  bid = refl;
  ending = refl;
  proposals = refl;
  warned = refl;
}

reply_tweet-SameKeys :
    (services : Services) (text : Text) (w : World)
    → SameKeys w.cache (reply_tweet services text w).cache
unfolding reply_tweet send_tweet
reply_tweet-SameKeys services text w = ground arith

picture-SameKeys :
    (b : Bool) (w v : World)
    → SameKeys w.cache v.cache
    → SameKeys w.cache (if b then v else w).cache
picture-SameKeys true w v h = h
picture-SameKeys false w v h = same w.cache

twitter_handle-SameKeys :
    (services : Services) (notice : Notice) (w : World)
    → SameKeys w.cache (twitter_handle services notice w).cache
unfolding twitter_handle
twitter_handle-SameKeys services (new_auction id) w =
    picture-SameKeys (services.has_picture id) w _
      (send_tweet-SameKeys services (format_auction_started_tweet_text id) none w)
twitter_handle-SameKeys services (new_bid id bid) w = reply_tweet-SameKeys services _ w
twitter_handle-SameKeys services (auction_ending_soon id) w = reply_tweet-SameKeys services _ w
twitter_handle-SameKeys services (new_proposal p) w = same w.cache
twitter_handle-SameKeys services (updated_proposal_status p) w = same w.cache
twitter_handle-SameKeys services (proposal_at_risk_of_expiry p) w = same w.cache
twitter_handle-SameKeys services (governance_vote p vote) w = same w.cache

discord_handle-SameKeys :
    (services : Services) (clients : List ℕ) (notice : Notice) (w : World)
    → SameKeys w.cache (discord_handle services clients notice w).cache
unfolding discord_handle send_embed
discord_handle-SameKeys services clients (new_auction id) w =
    picture-SameKeys (services.has_picture id) w _ (same w.cache)
discord_handle-SameKeys services clients (new_bid id bid) w = same w.cache
discord_handle-SameKeys services clients (auction_ending_soon id) w = same w.cache
discord_handle-SameKeys services clients (new_proposal p) w = same w.cache
discord_handle-SameKeys services clients (updated_proposal_status p) w = same w.cache
discord_handle-SameKeys services clients (proposal_at_risk_of_expiry p) w = same w.cache
discord_handle-SameKeys services clients (governance_vote p vote) w = same w.cache

handle-SameKeys :
    (services : Services) (notice : Notice) (h : Handler) (w : World)
    → SameKeys w.cache (handle services notice h w).cache
handle-SameKeys services notice twitter w = twitter_handle-SameKeys services notice w
handle-SameKeys services notice (discord clients) w =
    discord_handle-SameKeys services clients notice w

pub notify-SameKeys :
    (services : Services) (handlers : List Handler) (notice : Notice) (w : World)
    → SameKeys w.cache (notify services handlers notice w).cache
unfolding notify
notify-SameKeys services [] notice w = same w.cache
notify-SameKeys services (h ∷ handlers) notice w =
    SameKeys-trans w.cache (handle services notice h w).cache _
      (handle-SameKeys services notice h w)
      (notify-SameKeys services handlers notice (handle services notice h w))
