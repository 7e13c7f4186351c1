-- ===== src/Vast/Provider/Transitions.antt =====
-- Which states a tick of `update` leads to, and which commands it runs.
use hadcd_agent.Base.{
  if◌then◌else◌, ◌⊎◌, inl, inr, ◌≡◌, ◌≢◌, ◌↔◌, refl, Bool, true, false, some, [], ◌∷◌, arith,
}
use hadcd_agent.Base.Int.{ℤ, pos, negsuc, is_zero}
use hadcd_agent.Vast.Monad.{
  World, pure, ProviderState, unlisted, listing, listed, unlisting, Cli, Provider, ran, raised,
}
use hadcd_agent.Vast.Cli.{
  set_args, instances_args, rental_count, breaks, get_listing_price_keeps, list_machine,
  unlist_machine, active_rental_count-cases,
}
use hadcd_agent.Vast.Provider.{
  Schedule, want_listed, do_list, do_unlist, close_session, drain, dispatch, update, after,
}

-- The transitions of a tick that wants the machine listed (`true`) or not; `broken` says that the
-- command which lists it raises what `_exec` does not catch.
pub data Edge (broken : Bool) : Bool → ProviderState → ProviderState → Type 0 where
  rest : Edge broken false unlisted unlisted
  list : Edge broken true unlisted listed
  list_failed : Edge broken true unlisted unlisted
  keep : Edge broken true listed listed
  unlist : Edge broken false listed unlisting
  unlist_failed : Edge broken false listed listed
  wait : Edge broken false unlisting unlisting
  drained : Edge broken false unlisting unlisted
  relist : Edge broken true unlisting listed
  relist_failed : Edge broken true unlisting unlisted
  settle : (want : Bool) → Edge broken want listing listed
  settle_failed : (want : Bool) → Edge broken want listing unlisted
  stuck : broken ≡ true → Edge broken true unlisted listing
  restuck : broken ≡ true → Edge broken true unlisting listing
  stuck_again : (want : Bool) → broken ≡ true → Edge broken want listing listing

module _ (cli : Cli) (w : World) where
  -- A listing ends in one of two states, or its command breaks, and LISTING is left behind.
  do_list-Edge :
      (p : Provider)
      → let t = (do_list cli w p).1.state in
        (t ≡ listed)
        ⊎ ((t ≡ unlisted) ⊎ ((t ≡ listing) × (breaks w (set_args cli "listed=true") ≡ true)))
  unfolding do_list list_machine breaks
  do_list-Edge p =
      ground
        (arith, get_listing_price_keeps cli w (record p { state = listed; listed_at = some w.now }))

  do_unlist-Edge :
      (p : Provider)
      → p.state ≡ listed
      → let t = (do_unlist cli w p).1.state in (t ≡ listed) ⊎ (t ≡ unlisting)
  unfolding do_unlist unlist_machine
  do_unlist-Edge p h = ground arith

  -- A round of waiting: the count breaks, or decides.
  pub drain-cases :
      (p : Provider)
      → ((drain cli w p ≡ (raised, p, ran (cli.cmd ∷ instances_args cli) ∷ []))
          × (rental_count w cli ≡ negsuc 0))
        ⊎ (drain cli w p ≡ (
            let (r, q, es) =
              (if is_zero (rental_count w cli) then close_session cli else pure tt) w p in
            (r, q, ran (cli.cmd ∷ instances_args cli) ∷ es)))
  unfolding drain
  drain-cases p = elim (active_rental_count-cases cli w p) [
    | inl (e, unknown) ↦ inl (ground (arith, e), unknown)
    | inr e ↦ inr (ground (arith, e))
  ]

  close_session_state : (p : Provider) → (close_session cli w p).1.state ≡ unlisted
  unfolding close_session
  close_session_state p = ground arith

  counted_state :
      (n : ℤ) (p : Provider)
      → p.state ≡ unlisting
      → let t = ((if is_zero n then close_session cli else pure tt) w p).1.state in
        ((t ≡ unlisting) × (n ≢ pos 0)) ⊎ ((t ≡ unlisted) × (n ≡ pos 0))
  counted_state n p h = ground (arith, close_session_state p)

  drain_state :
      (p : Provider)
      → p.state ≡ unlisting
      → (((drain cli w p).1.state ≡ unlisting) × (rental_count w cli ≢ pos 0))
        ⊎ (((drain cli w p).1.state ≡ unlisted) × (rental_count w cli ≡ pos 0))
  drain_state p h = elim (drain-cases p) [
    | inl (e, unknown) ↦ rw e (inl (h, ground (arith, unknown)))
    | inr e ↦ rw e (counted_state (rental_count w cli) p h)
  ]

  dispatch-Edge :
      (t : ProviderState) (want : Bool) (p : Provider)
      → p.state ≡ t
      → Edge (breaks w (set_args cli "listed=true")) want t (dispatch cli t want w p).1.state
  unfolding dispatch
  dispatch-Edge unlisted true p h = elim (do_list-Edge p) [
    | inl e ↦ rw e list
    | inr (inl e) ↦ rw e list_failed
    | inr (inr e) ↦ rw (e.0) (stuck (e.1))
  ]
  dispatch-Edge unlisted false p h = rw h rest
  dispatch-Edge listed true p h = rw h keep
  dispatch-Edge listed false p h = elim (do_unlist-Edge p h) [
    | inl e ↦ rw e unlist_failed
    | inr e ↦ rw e unlist
  ]
  dispatch-Edge unlisting true p h = elim (do_list-Edge p) [
    | inl e ↦ rw e relist
    | inr (inl e) ↦ rw e relist_failed
    | inr (inr e) ↦ rw (e.0) (restuck (e.1))
  ]
  dispatch-Edge unlisting false p h = elim (drain_state p h) [
    | inl e ↦ rw (e.0) wait
    | inr e ↦ rw (e.0) drained
  ]
  dispatch-Edge listing want p h = elim (do_list-Edge p) [
    | inl e ↦ rw e (settle want)
    | inr (inl e) ↦ rw e (settle_failed want)
    | inr (inr e) ↦ rw (e.0) (stuck_again want (e.1))
  ]

pub update_enabled :
    (s : Schedule) (w : World) (p : Provider) {cli : Cli}
    → p.cli ≡ some cli
    → update s w p ≡ dispatch cli p.state (want_listed w p s) w p
unfolding update
update_enabled s w p h = ground arith

-- An enabled provider follows the diagram at every tick, whatever the CLI replies: it ends in LISTING
-- only where it tried to list the machine and the command raised what `_exec` does not catch.
pub update-Edge :
    (s : Schedule) (w : World) (p : Provider) {cli : Cli}
    → p.cli ≡ some cli
    → Edge (breaks w (set_args cli "listed=true")) (want_listed w p s) p.state (after s w p).state
update-Edge s w p {cli} h =
    rw (update_enabled s w p h, after) (dispatch-Edge cli w p.state (want_listed w p s) p refl)

-- While renters are awaited and the machine is not wanted listed, a tick ends in UNLISTED exactly
-- if the CLI reports a count of 0; an error, an exception or an unreadable reply keeps it waiting.
update_drains :
    (s : Schedule) (w : World) (p : Provider) {cli : Cli}
    → p.cli ≡ some cli
    → p.state ≡ unlisting
    → want_listed w p s ≡ false
    → ((after s w p).state ≡ unlisted) ↔ (rental_count w cli ≡ pos 0)
unfolding dispatch
update_drains s w p {cli} enabled waiting unwanted =
    ground (arith, update_enabled s w p enabled, drain_state cli w p waiting)
