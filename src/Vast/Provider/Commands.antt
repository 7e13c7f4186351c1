-- ===== src/Vast/Provider/Commands.antt =====
-- Which commands a tick of `update` runs, and when.
use hadcd_agent.Base.{
  ℕ, Option, none, str_eq, ◌&&◌, ◌≡◌, ◌≢◌, refl, inl, inr, Bool, true, false, some, ◌∷◌, All, arith,
}
use hadcd_agent.Vast.Monad.{
  World, pure, modify, emit, All-bind, All-if, ProviderState, unlisted, listing, listed, unlisting,
  Cli, Provider, Session, Effect, ran, logged, posted,
}
use hadcd_agent.Vast.Cli.{
  set_args, machines_args, instances_args, list_machine, unlist_machine, rental_count,
  get_listing_price_runs,
}
use hadcd_agent.Vast.Provider.{
  Schedule, want_listed, do_list, do_unlist, log_session, post_rental, session_of, report_session,
  close_session, drain, dispatch, update,
}
use hadcd_agent.Vast.Provider.Transitions.{update_enabled, drain-cases}
use hadcd_agent.Base.Int.{is_zero}

-- What a tick may do that wants the machine listed (`true`) or not, in a thread with an event loop
-- (`true`) or without one.
pub data IsAllowed (cli : Cli) (loop want : Bool) (e : Effect) : Type 0 where
  lists : want ≡ true → e ≡ ran (cli.cmd ∷ set_args cli "listed=true") → IsAllowed cli loop want e
  unlists :
      want ≡ false → e ≡ ran (cli.cmd ∷ set_args cli "listed=false") → IsAllowed cli loop want e
  reads_price : want ≡ true → e ≡ ran (cli.cmd ∷ machines_args) → IsAllowed cli loop want e
  counts : want ≡ false → e ≡ ran (cli.cmd ∷ instances_args cli) → IsAllowed cli loop want e
  logs : (r : Session) → want ≡ false → e ≡ logged r → IsAllowed cli loop want e
  posts : (r : Session) → want ≡ false → loop ≡ true → e ≡ posted r → IsAllowed cli loop want e

module _ (cli : Cli) (w : World) where
  do_list-IsAllowed : (p : Provider) → All (IsAllowed cli w.event_loop true) (do_list cli w p).2
  unfolding do_list list_machine
  do_list-IsAllowed p = grind (
    arith,
    lists,
    reads_price,
    get_listing_price_runs cli w (record p { state = listed; listed_at = some w.now }),
  )

  do_unlist-IsAllowed :
      (p : Provider) → All (IsAllowed cli w.event_loop false) (do_unlist cli w p).2
  unfolding do_unlist unlist_machine
  do_unlist-IsAllowed p = grind (arith, unlists)

  log_session-IsAllowed :
      (r : Session) (p : Provider) → All (IsAllowed cli w.event_loop false) (log_session r w p).2
  unfolding log_session
  log_session-IsAllowed r p =
      All-if (IsAllowed cli w.event_loop false) (str_eq p.payout_log "") (pure tt) (emit (logged r))
        w p (λ _. tt) (λ _. (logs r refl refl, tt))

  post_rental-IsAllowed :
      (r : Session) (p : Provider) → All (IsAllowed cli w.event_loop false) (post_rental r w p).2
  unfolding post_rental
  post_rental-IsAllowed r p =
      All-if (IsAllowed cli w.event_loop false) (p.has_callback && w.event_loop) (emit (posted r))
        (pure tt) w p (λ e. (posts r refl (ground (arith, e)) refl, tt)) (λ _. tt)

  report_session-IsAllowed :
      (since : Option ℕ) (p : Provider)
      → All (IsAllowed cli w.event_loop false) (report_session cli since w p).2
  unfolding report_session
  report_session-IsAllowed none p = tt
  report_session-IsAllowed (some t) p =
      let r = session_of cli t w p in
      All-bind (IsAllowed cli w.event_loop false) (λ _. post_rental r) w (log_session r) p
        (log_session-IsAllowed r p) (λ _ q. post_rental-IsAllowed r q)

  close_session-IsAllowed :
      (p : Provider) → All (IsAllowed cli w.event_loop false) (close_session cli w p).2
  unfolding close_session
  close_session-IsAllowed p =
      All-bind (IsAllowed cli w.event_loop false)
        (λ _. modify (λ q. record q { listed_at = none; listing_price = none; state = unlisted })) w
        (report_session cli p.listed_at) p (report_session-IsAllowed p.listed_at p) (λ _ _. tt)

  drain-IsAllowed : (p : Provider) → All (IsAllowed cli w.event_loop false) (drain cli w p).2
  drain-IsAllowed p = elim (drain-cases cli w p) [
    | inl (e, unknown) ↦ rw e (counts refl refl, tt)
    | inr e ↦ rw e (
      counts refl refl,
      All-if (IsAllowed cli w.event_loop false) (is_zero (rental_count w cli)) (close_session cli)
          (pure tt) w p (λ _. close_session-IsAllowed p) (λ _. tt),
    )
  ]

  dispatch-IsAllowed :
      (t : ProviderState) (want : Bool) (p : Provider)
      → t ≢ listing
      → All (IsAllowed cli w.event_loop want) (dispatch cli t want w p).2
  unfolding dispatch
  dispatch-IsAllowed unlisted true p h = do_list-IsAllowed p
  dispatch-IsAllowed unlisted false p h = tt
  dispatch-IsAllowed listed true p h = tt
  dispatch-IsAllowed listed false p h = do_unlist-IsAllowed p
  dispatch-IsAllowed unlisting true p h = do_list-IsAllowed p
  dispatch-IsAllowed unlisting false p h = drain-IsAllowed p
  dispatch-IsAllowed listing want p h = absurd (h refl)

-- From a state that is not LISTING, a tick of an enabled provider lists the machine only when it is wanted listed and delists
-- it only when it is not; the only other commands read the price (when wanted) and count the
-- rentals (when not). No command that could end a rental is ever run. A rental goes to the backend
-- only if the calling thread has an event loop.
pub update-IsAllowed :
    (s : Schedule) (w : World) (p : Provider) {cli : Cli}
    → p.cli ≡ some cli
    → p.state ≢ listing
    → All (IsAllowed cli w.event_loop (want_listed w p s)) (update s w p).2
update-IsAllowed s w p {cli} enabled settled =
    rw (update_enabled s w p enabled) (dispatch-IsAllowed cli w p.state _ p settled)
