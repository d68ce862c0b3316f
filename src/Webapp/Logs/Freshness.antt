-- ===== src/Webapp/Logs/Freshness.antt =====
-- What the actions of packages/nouns-webapp/src/state/slices/logs.ts keep.
use unouns_monorepo.Base.{
  ℕ, String, ◌≤◌, ◌≡◌, refl, sym, subst, ap, ◌∙◌, arith, Bool, true, false, Option, none, some,
  List, [], ◌∷◌, str_eq, eq_iff, if◌then◌else◌, Bool-cases, inl, inr,
}
use unouns_monorepo.Base.Int.{pos, ◌+ℤ◌, ◌-ℤ◌}
use unouns_monorepo.Base.Table.{load, save, load-save}
use unouns_monorepo.Webapp.Logs.{
  Results, FetchState, LogsState, add_listener, fetching_log, fetching_logs, is_newer,
  store_results, remove_listener, Action, listener_added, logs_fetching, logs_fetched, logs_failed,
  listener_removed, reduce,
}

-- `g` has results where `f` has, and of no earlier block.
abbrev pub NoOlder : Option Results → Option Results → Type 0
NoOlder none new = Unit
NoOlder (some r) none = ⊥
NoOlder (some r) (some q) = r.block_number ≤ q.block_number

NoOlder-refl : (o : Option Results) → NoOlder o o
NoOlder-refl none = tt
NoOlder-refl (some r) = omega arith

NoOlder-trans : (a b c : Option Results) → NoOlder a b → NoOlder b c → NoOlder a c
NoOlder-trans none b c h k = tt
NoOlder-trans (some r) none c h k = elim h [ ]
NoOlder-trans (some r) (some q) none h k = elim k [ ]
NoOlder-trans (some r) (some q) (some p) h k = omega arith

-- the entry that is there stays, with results that are no older
abbrev pub Keeps : LogsState → LogsState → Type 0
Keeps s t =
    (key : String) (f : FetchState)
    → load s key ≡ some f
    → (g : FetchState) × (load t key ≡ some g) × NoOlder f.results g.results

Keeps-refl : (s : LogsState) → Keeps s s
Keeps-refl s key f h = (f, h, NoOlder-refl f.results)

Keeps-trans : (s t u : LogsState) → Keeps s t → Keeps t u → Keeps s u
Keeps-trans s t u h k key f row =
    let (g, there, newer) = h key f row in
    let (e, after, later) = k key g there in
    (e, after, NoOlder-trans f.results g.results e.results newer later)

-- saving an entry that is no older than the one that was there
save-Keeps :
    (s : LogsState) (key : String) (g : FetchState)
    → ((f : FetchState) → load s key ≡ some f → NoOlder f.results g.results)
    → Keeps s (save s key g)
save-Keeps s key g newer k f row = elim (Bool-cases (str_eq key k)) [
  | inl same ↦ (
    g,
    load-save s key k g ∙ ap (λ t. if t then some g else load s k) same,
    newer f (ap (load s) ((eq_iff key k).0 same) ∙ row),
  )
  | inr other ↦ (
    f,
    load-save s key k g ∙ ap (λ t. if t then some g else load s k) other ∙ row,
    NoOlder-refl f.results,
  )
]

same_entry :
    (s : LogsState) (key : String) (f g : FetchState)
    → load s key ≡ some f
    → load s key ≡ some g
    → f ≡ g
same_entry s key f g h k = ground (arith, h, k)

-- saving an entry with the results of the one that is there
touch-Keeps :
    (s : LogsState) (key : String) (f g : FetchState)
    → load s key ≡ some f
    → g.results ≡ f.results
    → Keeps s (save s key g)
touch-Keeps s key f g row same = save-Keeps s key g (λ e there.
    subst (NoOlder e.results) (ap FetchState.results (same_entry s key e f there row) ∙ sym same)
      (NoOlder-refl e.results))

-- an action that changes the entry of a key, its results excluded
update-Keeps :
    (s : LogsState) (key : String) (g : FetchState → FetchState)
    → ((f : FetchState) → (g f).results ≡ f.results)
    → (o : Option FetchState) → load s key ≡ o
    → Keeps s (elim o as (λ x. LogsState) [ none ↦ s | some f ↦ save s key (g f) ])
update-Keeps s key g same none row = Keeps-refl s
update-Keeps s key g same (some f) row = touch-Keeps s key f (g f) row (same f)

fetching_log-Keeps : (block : ℕ) (key : String) (s : LogsState) → Keeps s (fetching_log block key s)
unfolding fetching_log
fetching_log-Keeps block key s =
    update-Keeps s key (λ f. record f { fetching_block_number = some block }) (λ f. refl)
      (load s key) refl

fetching_logs-Keeps :
    (keys : List String) (block : ℕ) (s : LogsState) → Keeps s (fetching_logs keys block s)
unfolding fetching_logs
fetching_logs-Keeps [] block s = Keeps-refl s
fetching_logs-Keeps (key ∷ keys) block s =
    Keeps-trans s (fetching_log block key s) _ (fetching_log-Keeps block key s)
      (fetching_logs-Keeps keys block (fetching_log block key s))

remove_listener-Keeps : (key : String) (s : LogsState) → Keeps s (remove_listener key s)
unfolding remove_listener
remove_listener-Keeps key s =
    update-Keeps s key (λ f. record f { listeners = f.listeners -ℤ pos 1 }) (λ f. refl) (load s key)
      refl

add_listener-Keeps : (key : String) (s : LogsState) → Keeps s (add_listener key s)
unfolding add_listener
add_listener-Keeps key s = go (load s key) refl
  where
    go :
        (o : Option FetchState)
        → load s key ≡ o
        → Keeps s (elim o as (λ x. LogsState) [
          | none ↦
              save s key
                (record { listeners = pos 1; fetching_block_number = none; results = none })
          | some f ↦ save s key (record f { listeners = FetchState.listeners f +ℤ pos 1 })
        ])
    go none row = save-Keeps s key _ (λ f there. ground (arith, row, there))
    go (some f) row = touch-Keeps s key f _ row refl

-- results that are stored are not older than those that they replace
newer-NoOlder :
    (o : Option Results) (r : Results) → is_newer o r.block_number ≡ false → NoOlder o (some r)
newer-NoOlder none r h = tt
newer-NoOlder (some q) r h = ground arith

store_results-Keeps :
    (key : String) (results : Results) (s : LogsState) → Keeps s (store_results key results s)
unfolding store_results
store_results-Keeps key results s = go (load s key) refl
  where
    pick :
        (f : FetchState)
        → load s key ≡ some f
        → (t : Bool) → is_newer f.results results.block_number ≡ t
        → Keeps s (if t then s else save s key (record f { results = some results }))
    pick f row true h = Keeps-refl s
    pick f row false h = save-Keeps s key _ (λ e there.
        subst (λ x. NoOlder (FetchState.results x) (some results)) (same_entry s key f e row there)
          (newer-NoOlder f.results results h))

    go :
        (o : Option FetchState)
        → load s key ≡ o
        → Keeps s (elim o as (λ x. LogsState) [
          | none ↦ s
          | some f ↦
              if is_newer (FetchState.results f) results.block_number
              then s
              else save s key (record f { results = some results })
        ])
    go none row = Keeps-refl s
    go (some f) row = pick f row (is_newer f.results results.block_number) refl

reduce-Keeps : (action : Action) (s : LogsState) → Keeps s (reduce action s)
reduce-Keeps (listener_added key) s = add_listener-Keeps key s
reduce-Keeps (logs_fetching keys block) s = fetching_logs-Keeps keys block s
reduce-Keeps (logs_fetched key block found) s = store_results-Keeps key _ s
reduce-Keeps (logs_failed key block) s = store_results-Keeps key _ s
reduce-Keeps (listener_removed key) s = remove_listener-Keeps key s

abbrev pub run : List Action → LogsState → LogsState
run [] s = s
run (action ∷ actions) s = run actions (reduce action s)

run-Keeps : (actions : List Action) (s : LogsState) → Keeps s (run actions s)
run-Keeps [] s = Keeps-refl s
run-Keeps (action ∷ actions) s =
    Keeps-trans s (reduce action s) _ (reduce-Keeps action s) (run-Keeps actions (reduce action s))

-- An entry that is there is still there after any sequence of actions, and its results are only ever
-- replaced by results of the same or a later block, in whatever order the answers arrive.
run-NoOlder :
    (actions : List Action) (s : LogsState) (key : String) (f : FetchState)
    → load s key ≡ some f
    → (g : FetchState) × (load (run actions s) key ≡ some g) × NoOlder f.results g.results
run-NoOlder actions s key f row = run-Keeps actions s key f row
