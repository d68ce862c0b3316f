-- ===== src/Bots/Ticks/Auction.antt =====
-- The auction job: what a tick leaves in the cache, and that nothing is announced twice.
use unouns_monorepo.Base.{
  ℕ, ◌≤◌, ◌≡◌, refl, sym, ap, ◌∙◌, arith, Bool, true, false, ◌&&◌, List, [], ◌∷◌, ltb,
  if◌then◌else◌, codes,
}
use unouns_monorepo.Base.Text.{Text, same_text, same_text_refl, same_text→≡}
use unouns_monorepo.Bots.Types.{
  Bid, AuctionBids, Cache, World, Services, Handler, get_auction_cache,
  get_auction_ending_soon_cache, get_bid_cache,
}
use unouns_monorepo.Bots.Messages.{build_counter_name}
use unouns_monorepo.Bots.Handlers.{new_auction, new_bid, auction_ending_soon, notify}
use unouns_monorepo.Bots.Handlers.Frames.{SameKeys, same, notify-SameKeys}
use unouns_monorepo.Bots.Ticks.{
  increment_counter, discover_auction, discover_bid, ends_soon, announce_ending,
  process_auction_tick, update_bid_cache, update_auction_ending_soon_cache,
}

-- the three keys that the auction job reads
record Keys (a : ℕ) (b : Text) (e : ℕ) (c : Cache) : Type 0 where
  auction : get_auction_cache c ≡ a
  bid : get_bid_cache c ≡ b
  ending : get_auction_ending_soon_cache c ≡ e

SameKeys-Keys :
    (a : ℕ) (b : Text) (e : ℕ) (c d : Cache) → SameKeys c d → Keys a b e c → Keys a b e d
SameKeys-Keys a b e c d same keys = record {
  auction = ground (arith, same.auction, keys.auction);
  bid = ground (arith, same.bid, keys.bid);
  ending = ground (arith, same.ending, keys.ending);
}

-- the bid that is cached after a tick
abbrev pub last_bid : List Bid → Text → Text
last_bid [] cached = cached
last_bid (b ∷ bids) cached = b.id

-- the auction that is cached after a tick
abbrev pub highest : ℕ → ℕ → ℕ
highest cached id = if ltb cached id then id else cached

-- the auction whose end is announced last after a tick
abbrev pub announced_ending : ℕ → AuctionBids → ℕ → ℕ
announced_ending now last cached =
    if ends_soon now last.end_time && ltb cached last.id then last.id else cached

discover_auction-Keys :
    (services : Services) (handlers : List Handler) (id a : ℕ) (b : Text) (e : ℕ) (w : World)
    → Keys a b e w.cache
    → Keys
        (highest a id)
        b
        e
        (if ltb a id then discover_auction services handlers id w else w).cache
unfolding discover_auction increment_counter
discover_auction-Keys services handlers id a b e w keys = go (ltb a id)
  where
    go :
        (new : Bool)
        → Keys
            (if new then id else a)
            b
            e
            (if new then discover_auction services handlers id w else w).cache
    go true =
        SameKeys-Keys id b e _ _ (notify-SameKeys services handlers (new_auction id) _)
          (record { auction = refl; bid = keys.bid; ending = keys.ending })
    go false = keys

seen_bid-Keys :
    (services : Services) (handlers : List Handler) (last_id a : ℕ) (bid : Bid) (b : Text) (e : ℕ)
    (w : World)
    → Keys a b e w.cache
    → (seen : Bool) → same_text b bid.id ≡ seen
    → Keys a bid.id e
        (if seen
          then w
          else notify services handlers (new_bid last_id bid) (update_bid_cache bid.id w)).cache
seen_bid-Keys services handlers last_id a bid b e w keys true h = record {
  auction = keys.auction;
  bid = keys.bid ∙ same_text→≡ b bid.id h;
  ending = keys.ending;
}
seen_bid-Keys services handlers last_id a bid b e w keys false h =
    SameKeys-Keys a bid.id e _ _ (notify-SameKeys services handlers (new_bid last_id bid) _)
      (record { auction = keys.auction; bid = refl; ending = keys.ending })

discover_bid-Keys :
    (services : Services) (handlers : List Handler) (id now : ℕ) (bids : List Bid) (a : ℕ)
    (b : Text) (e : ℕ) (w : World)
    → Keys a b e w.cache
    → Keys a
        (last_bid bids b)
        e
        (discover_bid services handlers b (record { id = id; end_time = now; bids = bids }) w).cache
unfolding discover_bid
discover_bid-Keys services handlers id now [] a b e w keys = keys
discover_bid-Keys services handlers id now (bid ∷ bids) a b e w keys =
    seen_bid-Keys services handlers id a bid b e w keys (same_text b bid.id) refl

announce_ending-Keys :
    (services : Services) (handlers : List Handler) (now : ℕ) (last : AuctionBids) (a : ℕ)
    (b : Text) (e : ℕ) (w : World)
    → Keys a b e w.cache
    → Keys a b (announced_ending now last e) (announce_ending services handlers now e last w).cache
unfolding announce_ending
announce_ending-Keys services handlers now last a b e w keys = ground (
  arith,
  notify-SameKeys services handlers (auction_ending_soon last.id)
      (update_auction_ending_soon_cache last.id w),
)

process_auction_tick-Keys :
    (services : Services) (handlers : List Handler) (now : ℕ) (last : AuctionBids) (w : World)
    → Keys
        (highest (get_auction_cache w.cache) last.id)
        (last_bid last.bids (get_bid_cache w.cache))
        (announced_ending now last (get_auction_ending_soon_cache w.cache))
        (process_auction_tick services handlers now last w).cache
unfolding process_auction_tick increment_counter
process_auction_tick-Keys services handlers now last w =
    let a = get_auction_cache w.cache in
    let b = get_bid_cache w.cache in
    let e = get_auction_ending_soon_cache w.cache in
    announce_ending-Keys services handlers now last (highest a last.id) (last_bid last.bids b) e _ (
      discover_bid-Keys services handlers last.id last.end_time last.bids (highest a last.id) b e _
        (discover_auction-Keys services handlers last.id a b e w
          (record { auction = refl; bid = refl; ending = refl })))

-- A tick leaves the highest auction seen, the latest bid where there is one, and the auction whose end
-- it announced; it never lowers the auction or the announced auction.
pub process_auction_tick-cache :
    (services : Services) (handlers : List Handler) (now : ℕ) (last : AuctionBids) (w : World)
    → let t = process_auction_tick services handlers now last w in
      (get_auction_cache t.cache ≡ highest (get_auction_cache w.cache) last.id)
      × (get_bid_cache t.cache ≡ last_bid last.bids (get_bid_cache w.cache))
      × (get_auction_ending_soon_cache t.cache
          ≡ announced_ending now last (get_auction_ending_soon_cache w.cache))
      × (get_auction_cache w.cache ≤ get_auction_cache t.cache)
      × (get_auction_ending_soon_cache w.cache ≤ get_auction_ending_soon_cache t.cache)
process_auction_tick-cache services handlers now last w =
    let keys = process_auction_tick-Keys services handlers now last w in
    (keys.auction, keys.bid, keys.ending, ground (arith, keys.auction), ground (arith, keys.ending))

quiet_bid :
    (services : Services) (handlers : List Handler) (id now : ℕ) (bids : List Bid) (b : Text)
    (w : World)
    → last_bid bids b ≡ b
    → discover_bid services handlers b (record { id = id; end_time = now; bids = bids }) w ≡ w
unfolding discover_bid
quiet_bid services handlers id now [] b w h = refl
quiet_bid services handlers id now (bid ∷ bids) b w h =
    ground (arith, same_text_refl b, ap (same_text b) h)

not_raised : (t : Bool) (e id : ℕ) → (if t && ltb e id then id else e) ≡ e → (t && ltb e id) ≡ false
not_raised true e id h = ground arith
not_raised false e id h = refl

quiet_ending :
    (services : Services) (handlers : List Handler) (now e : ℕ) (last : AuctionBids) (w : World)
    → announced_ending now last e ≡ e
    → announce_ending services handlers now e last w ≡ w
unfolding announce_ending
quiet_ending services handlers now e last w h =
    ap
      (λ t.
        if t
        then notify services handlers (auction_ending_soon last.id)
            (update_auction_ending_soon_cache last.id w)
        else w)
      (not_raised (ends_soon now last.end_time) e last.id h)

-- a tick that finds nothing new only counts itself
quiet_tick :
    (services : Services) (handlers : List Handler) (now : ℕ) (last : AuctionBids) (w : World)
    → highest (get_auction_cache w.cache) last.id ≡ get_auction_cache w.cache
    → last_bid last.bids (get_bid_cache w.cache) ≡ get_bid_cache w.cache
    → announced_ending now last (get_auction_ending_soon_cache w.cache)
      ≡ get_auction_ending_soon_cache w.cache
    → process_auction_tick services handlers now last w
      ≡ increment_counter (build_counter_name (codes "auction_process_last_auction")) w
unfolding process_auction_tick
quiet_tick services handlers now last w high bid ending =
    let a = get_auction_cache w.cache in
    let b = get_bid_cache w.cache in
    let e = get_auction_ending_soon_cache w.cache in
    let name = build_counter_name (codes "auction_process_last_auction") in
    ap
      (λ t. announce_ending services handlers now e last (
        discover_bid services handlers b last
          (increment_counter name (if t then discover_auction services handlers last.id w else w))))
      (not_raised true a last.id high)
    ∙ ap (announce_ending services handlers now e last) (
        quiet_bid services handlers last.id last.end_time last.bids b (increment_counter name w)
          bid)
    ∙ quiet_ending services handlers now e last (increment_counter name w) ending

highest_twice : (a b id : ℕ) → b ≡ highest a id → highest b id ≡ b
highest_twice a b id h = ground arith

last_bid_twice : (bids : List Bid) (b c : Text) → c ≡ last_bid bids b → last_bid bids c ≡ c
last_bid_twice [] b c h = refl
last_bid_twice (bid ∷ bids) b c h = sym h

raised_twice :
    (t : Bool) (e d id : ℕ)
    → d ≡ (if t && ltb e id then id else e)
    → (if t && ltb d id then id else d) ≡ d
raised_twice true e d id h = ground arith
raised_twice false e d id h = refl

-- A second tick on the same answer at the same time announces nothing: it only counts itself.
pub process_auction_tick-twice :
    (services : Services) (handlers : List Handler) (now : ℕ) (last : AuctionBids) (w : World)
    → let t = process_auction_tick services handlers now last w in
      process_auction_tick services handlers now last t
      ≡ increment_counter (build_counter_name (codes "auction_process_last_auction")) t
process_auction_tick-twice services handlers now last w =
    let keys = process_auction_tick-Keys services handlers now last w in
    quiet_tick services handlers now last _ (highest_twice _ _ last.id keys.auction)
      (last_bid_twice last.bids _ _ keys.bid)
      (raised_twice (ends_soon now last.end_time) _ _ last.id keys.ending)
