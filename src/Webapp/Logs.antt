-- ===== src/Webapp/Logs.antt =====
-- packages/nouns-webapp/src/state/slices/logs.ts and state/updaters/logs.ts: the event logs that are
-- listened for, by the key of their filter, and the ranges of blocks that are asked for.
pub mod Freshness
pub mod Keys
pub mod Ranges
use unouns_monorepo.Base.{
  ℕ, zero, suc, ◌+◌, ◌-◌, ◌≤◌, String, Bool, true, false, Option, none, some, List, [], ◌∷◌, ◌==◌,
  ltb, leb, min, if◌then◌else◌,
}
use unouns_monorepo.Base.Int.{ℤ, pos, ◌+ℤ◌, ◌-ℤ◌, eq_ℤ}
use unouns_monorepo.Base.Table.{Table, load, save}

pub record Log : Type 0 where
  pub topics : List String
  pub transaction_hash : String
  pub payload : String

-- `logs`, or `error: true`
pub data Outcome : Type 0 where
  logs : List Log → Outcome
  error : Outcome

pub record Results : Type 0 where
  pub block_number : ℕ
  pub outcome : Outcome

-- listeners are counted down without a bound
pub record FetchState : Type 0 where
  pub listeners : ℤ
  pub fetching_block_number : Option ℕ
  pub results : Option Results

abbrev pub LogsState : Type 0
LogsState = Table FetchState

unfoldable pub add_listener : String → LogsState → LogsState
unfolding load save
add_listener key state = elim (load state key) [
  | none ↦
      save state key (record { listeners = pos 1; fetching_block_number = none; results = none })
  | some f ↦ save state key (record f { listeners = FetchState.listeners f +ℤ pos 1 })
]

unfoldable pub fetching_log : ℕ → String → LogsState → LogsState
unfolding load save
fetching_log block key state = elim (load state key) [
  | none ↦ state
  | some f ↦ save state key (record f { fetching_block_number = some block })
]

unfoldable pub fetching_logs : List String → ℕ → LogsState → LogsState
unfolding fetching_log
fetching_logs [] block state = state
fetching_logs (key ∷ keys) block state = fetching_logs keys block (fetching_log block key state)

-- there are results, of a later block
abbrev pub is_newer : Option Results → ℕ → Bool
is_newer none block = false
is_newer (some r) block = ltb block r.block_number

-- `fetchedLogs` and `fetchedLogsError` differ in what they store only
unfoldable pub store_results : String → Results → LogsState → LogsState
unfolding load save
store_results key results state = elim (load state key) [
  | none ↦ state
  | some f ↦
      if is_newer (FetchState.results f) results.block_number
      then state
      else save state key (record f { results = some results })
]

abbrev pub fetched_logs : String → ℕ → List Log → LogsState → LogsState
fetched_logs key block found state =
    store_results key (record { block_number = block; outcome = logs found }) state

abbrev pub fetched_logs_error : String → ℕ → LogsState → LogsState
fetched_logs_error key block state =
    store_results key (record { block_number = block; outcome = error }) state

unfoldable pub remove_listener : String → LogsState → LogsState
unfolding load save
remove_listener key state = elim (load state key) [
  | none ↦ state
  | some f ↦ save state key (record f { listeners = FetchState.listeners f -ℤ pos 1 })
]

pub data Action : Type 0 where
  listener_added : String → Action
  logs_fetching : List String → ℕ → Action
  logs_fetched : String → ℕ → List Log → Action
  logs_failed : String → ℕ → Action
  listener_removed : String → Action

abbrev pub reduce : Action → LogsState → LogsState
reduce (listener_added key) s = add_listener key s
reduce (logs_fetching keys block) s = fetching_logs keys block s
reduce (logs_fetched key block found) s = fetched_logs key block found s
reduce (logs_failed key block) s = fetched_logs_error key block s
reduce (listener_removed key) s = remove_listener key s

-- packages/nouns-webapp/src/state/updaters/logs.ts
abbrev pub max_blocks_per_call : ℕ
max_blocks_per_call = 1000000

abbrev pub at_least : Option ℕ → ℕ → Bool
at_least none block = false
at_least (some b) block = leb block b

abbrev pub result_block : Option Results → Option ℕ
result_block none = none
result_block (some r) = some r.block_number

-- the test of `filtersNeedFetch`
unfoldable pub needs_fetch : ℕ → FetchState → Bool
needs_fetch block f =
    if eq_ℤ f.listeners (pos 0)
    then false
    else if at_least f.fetching_block_number block
    then false
    else if at_least (result_block f.results) block
    then false
    else true

unfoldable pub keys_need_fetch : ℕ → LogsState → List String
unfolding needs_fetch
keys_need_fetch block [] = []
keys_need_fetch block ((key, f) ∷ state) =
    let rest = keys_need_fetch block state in if needs_fetch block f then key ∷ rest else rest

pub record Range : Type 0 where
  pub from_block : ℕ
  pub to_block : ℕ

-- `while (fromBlock <= blockNumber)`. A round moves `from` up, so that `block + 1 - from` rounds are
-- enough.
unfoldable pub ranges_from : ℕ → ℕ → ℕ → List Range
ranges_from block zero from = []
ranges_from block (suc fuel) from =
    let rest = ranges_from block fuel (from + max_blocks_per_call) in
    if leb from block
    then record { from_block = from; to_block = min (from + max_blocks_per_call) block } ∷ rest
    else []

unfoldable pub ranges : ℕ → ℕ → List Range
unfolding ranges_from
ranges from block = ranges_from block (suc block - from) from
