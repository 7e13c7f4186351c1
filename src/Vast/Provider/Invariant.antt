-- ===== src/Vast/Provider/Invariant.antt =====
-- What holds of the provider between ticks, and where the machine's own bookkeeping is left behind.
use hadcd_agent.Base.{
  if◌then◌else◌, ◌∙◌, ◌⊎◌, ◌≢◌, Any, Option-cases, inl, inr, ℕ, String, ◌≡◌, refl, Bool, true,
  false, Option, none, some, List, [], ◌∷◌, arith, is_some,
}
use hadcd_agent.Base.Int.{ℤ, pos, is_zero}
use hadcd_agent.Base.Json.{Value, arr, obj}
use hadcd_agent.Vast.Monad.{
  exited, Outcome, Effect, pure, World, ProviderState, unlisted, listing, listed, unlisting, Cli,
  Provider, ran, ok, raised,
}
use hadcd_agent.Vast.Cli.{
  set_args, breaks, machines_args, exits_ok, list_machine, unlist_machine, rental_count,
  get_listing_price, get_listing_price_keeps, read_price,
}
use hadcd_agent.Vast.Provider.{
  Schedule, init, set_override, want_listed, do_list, do_unlist, close_session, drain, dispatch,
  update,
}
use hadcd_agent.Vast.Provider.Transitions.{
  Edge, rest, list, list_failed, keep, unlist, unlist_failed, wait, drained, relist, relist_failed,
  settle, settle_failed, stuck, restuck, stuck_again, update_enabled, drain-cases, update-Edge,
}
use hadcd_agent.Vast.Provider.Sessions.{report_session_ok, Event, tick, overridden, run}

-- A machine that is on offer, or that waits for its renters, has an open session; a price belongs
-- to an open session.
pub record IsConsistent (p : Provider) : Type 0 where
  pub listed_open : p.state ≡ listed → is_some p.listed_at ≡ true
  pub unlisting_open : p.state ≡ unlisting → is_some p.listed_at ≡ true
  pub price_open : is_some p.listing_price ≡ true → is_some p.listed_at ≡ true

module _ (cli : Cli) (w : World) (p : Provider) (h : IsConsistent p) where
  do_list-IsConsistent : IsConsistent (do_list cli w p).1
  unfolding do_list list_machine
  do_list-IsConsistent =
      ground
        (arith, get_listing_price_keeps cli w (record p { state = listed; listed_at = some w.now }))

  do_unlist-IsConsistent : p.state ≡ listed → IsConsistent (do_unlist cli w p).1
  unfolding do_unlist unlist_machine
  do_unlist-IsConsistent e = ground arith

  close_session-IsConsistent : IsConsistent (close_session cli w p).1
  unfolding close_session
  close_session-IsConsistent = ground (arith, report_session_ok cli w p.listed_at p)

  drained-IsConsistent :
      (done : Bool) → IsConsistent ((if done then close_session cli else pure tt) w p).1
  drained-IsConsistent true = close_session-IsConsistent
  drained-IsConsistent false = h

  drain-IsConsistent : IsConsistent (drain cli w p).1
  drain-IsConsistent = elim (drain-cases cli w p) [
    | inl (e, unknown) ↦ rw e h
    | inr e ↦ rw e (drained-IsConsistent (is_zero (rental_count w cli)))
  ]

  dispatch-IsConsistent :
      (t : ProviderState) (want : Bool) → p.state ≡ t → IsConsistent (dispatch cli t want w p).1
  unfolding dispatch
  dispatch-IsConsistent unlisted true e = do_list-IsConsistent
  dispatch-IsConsistent unlisted false e = h
  dispatch-IsConsistent listed true e = h
  dispatch-IsConsistent listed false e = do_unlist-IsConsistent e
  dispatch-IsConsistent unlisting true e = do_list-IsConsistent
  dispatch-IsConsistent unlisting false e = drain-IsConsistent
  dispatch-IsConsistent listing want e = do_list-IsConsistent

update-IsConsistent :
    (s : Schedule) (w : World) (p : Provider) → IsConsistent p → IsConsistent (update s w p).1
unfolding update
update-IsConsistent s w p h = go p.cli
  where
    go :
        (c : Option Cli)
        → let (_, q, _) : Outcome (Unit {0}) × Provider × List Effect = elim c [
          | none ↦ (ok tt, p, [])
          | some cli ↦ dispatch cli p.state (want_listed w p s) w p
        ] in
          IsConsistent q
    go none = h
    go (some cli) = dispatch-IsConsistent cli w p h p.state (want_listed w p s) refl

run_keeps : (es : List Event) (p : Provider) → IsConsistent p → IsConsistent (run es p).0
unfolding run
run_keeps [] p h = h
run_keeps (overridden o ∷ es) p h =
    run_keeps es (set_override o p) (unfold set_override in ground arith)
run_keeps (tick s w ∷ es) p h = run_keeps es (update s w p).1 (update-IsConsistent s w p h)

-- A tick whose listing command would raise what `_exec` does not catch.
abbrev pub IsBroken : Event → Type 0
IsBroken (tick s w) = (cli : Cli) × (breaks w (set_args cli "listed=true") ≡ true)
IsBroken (overridden o) = ⊥

edge-IsSettled :
    {broken want : Bool} {t u : ProviderState}
    → Edge broken want t u
    → (u ≢ listing) ⊎ (broken ≡ true)
edge-IsSettled rest = inl (ground arith)
edge-IsSettled list = inl (ground arith)
edge-IsSettled list_failed = inl (ground arith)
edge-IsSettled keep = inl (ground arith)
edge-IsSettled unlist = inl (ground arith)
edge-IsSettled unlist_failed = inl (ground arith)
edge-IsSettled wait = inl (ground arith)
edge-IsSettled drained = inl (ground arith)
edge-IsSettled relist = inl (ground arith)
edge-IsSettled relist_failed = inl (ground arith)
edge-IsSettled (settle want) = inl (ground arith)
edge-IsSettled (settle_failed want) = inl (ground arith)
edge-IsSettled (stuck b) = inr b
edge-IsSettled (restuck b) = inr b
edge-IsSettled (stuck_again want b) = inr b

tick-IsSettled :
    (s : Schedule) (w : World) (p : Provider)
    → p.state ≢ listing
    → ((update s w p).1.state ≢ listing) ⊎ IsBroken (tick s w)
tick-IsSettled s w p h = elim (Option-cases p.cli) [
  | inl disabled ↦ inl (unfold update in rw disabled h)
  | inr (cli, enabled) ↦ elim (edge-IsSettled (update-Edge s w p {cli = cli} enabled)) [
    | inl settled ↦ inl settled
    | inr broken ↦ inr (cli, broken)
  ]
]

run_settles :
    (es : List Event) (p : Provider)
    → p.state ≢ listing
    → ((run es p).0.state ≢ listing) ⊎ Any IsBroken es
unfolding run
run_settles [] p h = inl h
run_settles (overridden o ∷ es) p h =
    elim (run_settles es (set_override o p) (unfold set_override in h)) [
      | inl settled ↦ inl settled
      | inr broken ↦ inr (inr broken)
    ]
run_settles (tick s w ∷ es) p h = elim (tick-IsSettled s w p h) [
  | inr broken ↦ inr (inl broken)
  | inl here ↦ elim (run_settles es (update s w p).1 here) [
    | inl settled ↦ inl settled
    | inr broken ↦ inr (inr broken)
  ]
]

-- Whatever the ticks, the overrides and the replies of the CLI, exceptions included: after a run from
-- a fresh provider, a machine that is listed or that waits for its renters has an open session, and
-- a price that is kept belongs to an open session. LISTING is left behind only if at some tick the
-- listing command raises what `_exec` does not catch.
pub run-IsConsistent :
    (es : List Event) (cli : Option Cli) (pre_list : ℕ) (payout_log : String) (has_callback : Bool)
    → let p = (run es (init cli pre_list payout_log has_callback)).0 in
      IsConsistent p × ((p.state ≢ listing) ⊎ Any IsBroken es)
run-IsConsistent es cli pre_list payout_log has_callback = (
  run_keeps es (init cli pre_list payout_log has_callback) (ground arith),
  run_settles es (init cli pre_list payout_log has_callback) (ground arith),
)

-- A relisting that fails while renters are awaited ends in UNLISTED at once: nothing has counted
-- the rentals, the session stays open, and no row is logged.
relist_failure :
    (s : Schedule) (w : World) (p : Provider) {cli : Cli} {code : ℤ} {out err : String}
    → p.cli ≡ some cli
    → p.state ≡ unlisting
    → want_listed w p s ≡ true
    → w.run (set_args cli "listed=true") ≡ exited code out err
    → is_zero code ≡ false
    → update s w p
      ≡ (ok tt, record p { state = unlisted }, ran (cli.cmd ∷ set_args cli "listed=true") ∷ [])
unfolding dispatch do_list list_machine
relist_failure s w p {cli} enabled waiting wanted answers fails =
    update_enabled s w p enabled ∙ ground arith

-- A JSON value that is neither a list nor an object.
abbrev pub IsScalar : Value → Type 0
IsScalar (arr xs) = ⊥
IsScalar (obj fs) = ⊥
IsScalar _ = Unit

read_price_of_scalar :
    (w : World) (cli : Cli) (v : Value) → IsScalar v → read_price w cli (some v) ≡ none
unfolding read_price
read_price_of_scalar w cli v h = ground arith

price_raises :
    (w : World) (cli : Cli) (q : Provider) {out err : String} {v : Value}
    → w.run machines_args ≡ exited (pos 0) out err
    → w.loads out ≡ some v
    → IsScalar v
    → (get_listing_price cli w q).0 ≡ raised
unfolding get_listing_price
price_raises w cli q {v = v} answers parsed scalar =
    ground (arith, read_price_of_scalar w cli v scalar)

-- If the machine has just been listed and `show machines` answers with a scalar, the tick raises,
-- and the provider is left LISTED with a session and no price.
scalar_reply_raises :
    (s : Schedule) (w : World) (p : Provider) {cli : Cli} {out err : String} {v : Value}
    → p.cli ≡ some cli
    → p.state ≡ unlisted
    → p.listed_at ≡ none
    → want_listed w p s ≡ true
    → exits_ok w (set_args cli "listed=true") ≡ true
    → w.run machines_args ≡ exited (pos 0) out err
    → w.loads out ≡ some v
    → IsScalar v
    → let (r, q, _) = update s w p in
      (r ≡ raised) × (q ≡ record p { state = listed; listed_at = some w.now })
unfolding dispatch do_list list_machine exits_ok
scalar_reply_raises s w p {cli} {v = v} enabled fresh unopened wanted works answers parsed scalar =
    let q : Provider = record p { state = listed; listed_at = some w.now } in
    ground (
      arith,
      update_enabled s w p enabled,
      get_listing_price_keeps cli w q,
      price_raises w cli q answers parsed scalar,
    )
