-- ===== src/Subgraph/Token/Delegation.antt =====
-- What a DelegateChanged event does to the holder and to its two delegates.
use unouns_monorepo.Base.{
  String, some, List, [], ◌∷◌, ◌++◌, ◌≡◌, ◌≢◌, refl, arith, not, str_eq, filter_by, if◌then◌else◌,
}
use unouns_monorepo.Base.Int.{pos, ◌+ℤ◌, ◌-ℤ◌}
use unouns_monorepo.Base.Table.{load, save, load-save, load-save_self}
use unouns_monorepo.Subgraph.Schema.{Account, Delegate, DelegationEvent, Store, wrap_i32}
use unouns_monorepo.Subgraph.Helpers.Frames.{
  get_or_create_account-some, get_or_create_delegate-some,
}
use unouns_monorepo.Subgraph.Token.{
  DelegateChanged, includes, log_delegations, handle_delegate_changed,
}

log_delegations_frame :
    (template : DelegationEvent) (tx_hash : String) (ns : List String) (s : Store)
    → let t = log_delegations template tx_hash ns s in
      (t.delegates ≡ s.delegates) × (t.accounts ≡ s.accounts)
unfolding log_delegations
log_delegations_frame template tx_hash [] s = (refl, refl)
log_delegations_frame template tx_hash (n ∷ ns) s = log_delegations_frame template tx_hash ns _

-- the previous delegate as the handler saves it
abbrev pub released : List String → Delegate → Delegate
released nouns d = record d {
  token_holders_represented_amount = wrap_i32 (d.token_holders_represented_amount -ℤ pos 1);
  nouns_represented = filter_by (λ n. not (includes nouns n)) d.nouns_represented;
}

-- the new one
abbrev pub gained : List String → Delegate → Delegate
gained nouns d = record d {
  token_holders_represented_amount = wrap_i32 (d.token_holders_represented_amount +ℤ pos 1);
  nouns_represented = d.nouns_represented ++ nouns;
}

module _ (e : DelegateChanged) (s : Store) (holder : Account) (old new : Delegate)
    (holder_row : load s.accounts e.delegator ≡ some holder)
    (old_row : load s.delegates e.from_delegate ≡ some old)
    (new_row : load s.delegates e.to_delegate ≡ some new) where
  tables-handle_delegate_changed :
      let t = handle_delegate_changed e s in
      (t.delegates
        ≡ save
            (save s.delegates old.id (released holder.nouns old))
            new.id
            (gained holder.nouns new))
      × (t.accounts ≡ save s.accounts holder.id (record holder { delegate = some new.id }))
  unfolding handle_delegate_changed
  tables-handle_delegate_changed =
      rw
        (
          get_or_create_account-some e.delegator s holder_row,
          get_or_create_delegate-some e.from_delegate s old_row,
          get_or_create_delegate-some e.to_delegate s new_row,
        )
        (log_delegations_frame _ _ holder.nouns _)

  -- Where the three rows are there under their own ids and the two delegates differ: the holder
  -- points to the new delegate; the old one represents one holder less and none of the holder's
  -- Nouns, the new one represents one more and all of them after those that it had; every other
  -- delegate is as before.
  pub delegates-handle_delegate_changed :
      holder.id ≡ e.delegator
      → old.id ≡ e.from_delegate
      → new.id ≡ e.to_delegate
      → e.from_delegate ≢ e.to_delegate
      → (k : String)
      → let t = handle_delegate_changed e s in
        (load t.accounts e.delegator ≡ some (record holder { delegate = some e.to_delegate }))
        × (load t.delegates k ≡ (
            if str_eq e.to_delegate k
            then some (gained holder.nouns new)
            else if str_eq e.from_delegate k
            then some (released holder.nouns old)
            else load s.delegates k))
  delegates-handle_delegate_changed own p q distinct k = (
    ground (
      arith,
      tables-handle_delegate_changed,
      load-save_self s.accounts holder.id (record holder { delegate = some new.id }),
    ),
    ground (
      arith,
      tables-handle_delegate_changed,
      load-save (save s.delegates old.id (released holder.nouns old)) new.id k
          (gained holder.nouns new),
      load-save s.delegates old.id k (released holder.nouns old),
    ),
  )

-- Where a holder delegates again to the delegate that it has, and the rows are there under their own
-- ids, the delegate's row comes out with the holder's Nouns a second time and with one holder more:
-- its two copies do not see each other, and the last save wins.
redelegate_doubles :
    (e : DelegateChanged) (s : Store) (holder : Account) (d : Delegate)
    → load s.accounts e.delegator ≡ some holder
    → load s.delegates e.to_delegate ≡ some d
    → d.id ≡ e.to_delegate
    → e.from_delegate ≡ e.to_delegate
    → load (handle_delegate_changed e s).delegates e.to_delegate ≡ some (gained holder.nouns d)
redelegate_doubles e s holder d holder_row row own same = ground (
  arith,
  tables-handle_delegate_changed e s holder d d holder_row,
  load-save_self (save s.delegates d.id (released holder.nouns d)) d.id (gained holder.nouns d),
)
