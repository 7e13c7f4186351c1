-- ===== src/Vast/Provider.antt =====
-- `VastProvider`: the four-state machine that lists and unlists the node's machine.
pub mod Transitions
pub mod Commands
pub mod Invariant
pub mod Sessions
use hadcd_agent.Base.{
  ℕ, ◌+◌, String, Bool, true, false, ◌&&◌, ◌||◌, Option, none, some, str_eq, leb, is_some,
  if◌then◌else◌,
}
use hadcd_agent.Base.Int.{ℤ, is_zero}
use hadcd_agent.Vast.Monad.{
  Datetime, naive, aware, World, ProviderState, unlisted, listing, listed, unlisting, Cli, Provider,
  Session, logged, posted, Action, pure, ◌>>=◌, ◌>>◌, gets, asks, modify, emit,
}
use hadcd_agent.Vast.Cli.{list_machine, unlist_machine, get_listing_price, active_rental_count}

pub record Schedule : Type 0 where
  pub should_list : Bool
  pub next_window_start : Option String

abbrev pub enabled : Provider → Bool
enabled p = is_some p.cli

-- The provider that `__init__` leaves.
abbrev pub init : Option Cli → ℕ → String → Bool → Provider
init cli pre_list payout_log has_callback = record {
  cli = cli;
  pre_list = pre_list;
  payout_log = payout_log;
  has_callback = has_callback;
  state = unlisted;
  listed_at = none;
  listing_price = none;
  override = none;
}

unfoldable pub set_override : Option String → Provider → Provider
set_override override p = record p { override = override }

-- A stamp with no zone is read as UTC.
instant : Datetime → ℕ
instant (naive t) = t
instant (aware t) = t

unfoldable pub is_near_window : World → ℕ → Option String → Bool
unfolding instant
is_near_window w pre_list none = false
is_near_window w pre_list (some raw) = if str_eq raw "" then false else elim (w.fromisoformat raw) [
  | none ↦ false
  | some d ↦ leb w.now (instant d) && leb (instant d) (w.now + pre_list)
]

-- The decision of `update`: the schedule, or a window that is near, unless the operator overrides.
unfoldable pub want_listed : World → Provider → Schedule → Bool
want_listed w p s = elim p.override [
  | none ↦ s.should_list || is_near_window w p.pre_list s.next_window_start
  | some o ↦
      if str_eq o "list"
      then true
      else if str_eq o "unlist"
      then false
      else s.should_list || is_near_window w p.pre_list s.next_window_start
]

-- Opens a session, unless one is open.
open_session : Cli → Option ℕ → Action (Unit {0})
open_session cli (some t) = pure tt
open_session cli none = do
  now ← asks (λ w. w.now)
  modify (λ p. record p { listed_at = some now })
  price ← get_listing_price cli
  modify (λ p. record p { listing_price = price })

unfoldable pub do_list : Cli → Action (Unit {0})
unfolding open_session
do_list cli = do
  modify (λ p. record p { state = listing })
  success ← list_machine cli
  if success
      then (do
        modify (λ p. record p { state = listed })
        since ← gets (λ p. p.listed_at)
        open_session cli since)
      else modify (λ p. record p { state = unlisted })

unfoldable pub do_unlist : Cli → Action (Unit {0})
do_unlist cli = do
  success ← unlist_machine cli
  if success then modify (λ p. record p { state = unlisting }) else pure tt

-- `_log_session`, as far as the provider goes: a row, unless no payout log is configured.
log_session : Session → Action (Unit {0})
log_session r = do
  path ← gets (λ p. p.payout_log)
  if str_eq path "" then pure tt else emit (logged r)

-- `loop.create_task(self._rental_callback(...))`; without an event loop in the calling thread
-- `get_event_loop` raises a `RuntimeError`, and the rental is skipped.
post_rental : Session → Action (Unit {0})
post_rental r = do
  wanted ← gets (λ p. p.has_callback)
  loop ← asks (λ w. w.event_loop)
  if wanted && loop then emit (posted r) else pure tt

abbrev session_of : Cli → ℕ → World → Provider → Session
session_of cli since w p = record {
  machine_id = cli.machine_id;
  listed_at = since;
  unlisted_at = w.now;
  price = p.listing_price;
}

unfoldable pub report_session : Cli → Option ℕ → Action (Unit {0})
unfolding log_session post_rental
report_session cli none w p = pure tt w p
report_session cli (some since) w p =
    let r = session_of cli since w p in (log_session r >> post_rental r) w p

unfoldable pub close_session : Cli → Action (Unit {0})
unfolding report_session
close_session cli = do
  since ← gets (λ p. p.listed_at)
  report_session cli since
  modify (λ p. record p { listed_at = none; listing_price = none; state = unlisted })

-- One round of waiting for the renters: any count but 0 leaves the machine where it is.
unfoldable pub drain : Cli → Action (Unit {0})
drain cli = do count ← active_rental_count cli; if is_zero count then close_session cli else pure tt

unfoldable pub dispatch : Cli → ProviderState → Bool → Action (Unit {0})
dispatch cli unlisted true = do_list cli
dispatch cli unlisted false = pure tt
dispatch cli listed true = pure tt
dispatch cli listed false = do_unlist cli
dispatch cli unlisting true = do_list cli
dispatch cli unlisting false = drain cli
dispatch cli listing want = do_list cli

unfoldable pub update : Schedule → Action (Unit {0})
update s w p = elim p.cli [
  | none ↦ pure tt w p
  | some cli ↦ dispatch cli p.state (want_listed w p s) w p
]

-- The provider after a tick.
abbrev pub after : Schedule → World → Provider → Provider
after s w p = (update s w p).1
