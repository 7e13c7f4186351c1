-- ===== src/Vast/Provider/Sessions.antt =====
-- Runs of the provider: ticks and operator overrides in any order, and the rental sessions that
-- they open, close and log.
use hadcd_agent.Base.{
  sym, ◌∙◌, ℕ, ◌≤◌, String, ◌≡◌, ◌⊎◌, inl, inr, refl, ap, Bool, true, false, Option, none, some,
  List, [], ◌∷◌, ◌++◌, arith, if◌then◌else◌,
}
use mathlib.Core.List.{append-nil}
use hadcd_agent.Vast.Monad.{
  Outcome, World, ProviderState, unlisted, listing, listed, unlisting, Cli, Provider, Session,
  Effect, ran, logged, posted, ok, pure,
}
use hadcd_agent.Vast.Cli.{
  list_machine, unlist_machine, rental_count, instances_args, get_listing_price_runs,
  get_listing_price_keeps,
}
use hadcd_agent.Base.Int.{is_zero}
use hadcd_agent.Vast.Provider.Transitions.{drain-cases}
use hadcd_agent.Vast.Provider.{
  Schedule, init, set_override, want_listed, do_list, do_unlist, log_session, post_rental,
  session_of, report_session, close_session, drain, dispatch, update,
}

pub data Event : Type 0 where
  tick : Schedule → World → Event
  overridden : Option String → Event

unfoldable pub run : List Event → Provider → Provider × List Effect
run [] p = (p, [])
run (overridden o ∷ es) p = run es (set_override o p)
run (tick s w ∷ es) p = let (r, q, fs) = update s w p in let (q', gs) = run es q in (q', fs ++ gs)

-- The sessions that go to the payout log, in order.
abbrev pub sessions : List Effect → List Session
sessions [] = []
sessions (logged r ∷ es) = r ∷ sessions es
sessions (_ ∷ es) = sessions es

pub sessions-append : (es fs : List Effect) → sessions (es ++ fs) ≡ sessions es ++ sessions fs
sessions-append [] fs = refl
sessions-append (logged r ∷ es) fs = ap (λ rs. r ∷ rs) (sessions-append es fs)
sessions-append (ran args ∷ es) fs = sessions-append es fs
sessions-append (posted r ∷ es) fs = sessions-append es fs

-- What one tick does to the session that is open.
pub data SessionStep (w : World) (p q : Provider) (es : List Effect) : Type 0 where
  kept : q.listed_at ≡ p.listed_at → sessions es ≡ [] → SessionStep w p q es
  opened : p.listed_at ≡ none → q.listed_at ≡ some w.now → sessions es ≡ [] → SessionStep w p q es
  closed :
      (since : ℕ) (r : Session)
      → p.listed_at ≡ some since
      → q.listed_at ≡ none
      → r.listed_at ≡ since
      → r.unlisted_at ≡ w.now
      → (sessions es ≡ []) ⊎ (sessions es ≡ r ∷ [])
      → SessionStep w p q es

module _ (cli : Cli) (w : World) where
  do_list-SessionStep : (p : Provider) → SessionStep w p (do_list cli w p).1 (do_list cli w p).2
  unfolding do_list list_machine
  do_list-SessionStep p = grind (
    arith,
    kept,
    opened,
    get_listing_price_keeps cli w (record p { state = listed; listed_at = some w.now }),
    get_listing_price_runs cli w (record p { state = listed; listed_at = some w.now }),
  )

  do_unlist-SessionStep :
      (p : Provider) → SessionStep w p (do_unlist cli w p).1 (do_unlist cli w p).2
  unfolding do_unlist unlist_machine
  do_unlist-SessionStep p = grind (arith, kept)

  log_session_rows :
      (r : Session) (p : Provider)
      → (sessions (log_session r w p).2 ≡ []) ⊎ (sessions (log_session r w p).2 ≡ r ∷ [])
  unfolding log_session
  log_session_rows r p = ground arith

  post_rental_rows : (r : Session) (p : Provider) → sessions (post_rental r w p).2 ≡ []
  unfolding post_rental
  post_rental_rows r p = ground arith

  pub report_session_ok :
      (since : Option ℕ) (p : Provider) → (report_session cli since w p).0 ≡ ok tt
  unfolding report_session
  report_session_ok none p = refl
  report_session_ok (some t) p = ground arith

  report_session_rows :
      (t : ℕ) (p : Provider)
      → let es = (report_session cli (some t) w p).2 in
        (sessions es ≡ []) ⊎ (sessions es ≡ session_of cli t w p ∷ [])
  unfolding report_session
  report_session_rows t p = ground arith

  close_session_listed_at : (p : Provider) → (close_session cli w p).1.listed_at ≡ none
  unfolding close_session
  close_session_listed_at p = ground (arith, report_session_ok p.listed_at p)

  sessions-close_session :
      (p : Provider)
      → sessions (close_session cli w p).2 ≡ sessions (report_session cli p.listed_at w p).2
  unfolding close_session
  sessions-close_session p =
      ground
        (arith, report_session_ok p.listed_at p, append-nil (report_session cli p.listed_at w p).2)

  close_session-SessionStep :
      (p : Provider) → SessionStep w p (close_session cli w p).1 (close_session cli w p).2
  unfolding report_session
  close_session-SessionStep p = go p.listed_at refl
    where
      go :
          (o : Option ℕ)
          → p.listed_at ≡ o
          → SessionStep w p (close_session cli w p).1 (close_session cli w p).2
      go none e = kept (close_session_listed_at p ∙ sym e) (sessions-close_session p ∙ (rw e refl))
      go (some t) e =
          closed t (session_of cli t w p) e (close_session_listed_at p) refl refl
            (rw (sessions-close_session p) (simp e (report_session_rows t p)))

  ran-SessionStep :
      (p q : Provider) (args : List String) (es : List Effect)
      → SessionStep w p q es
      → SessionStep w p q (ran args ∷ es)
  ran-SessionStep p q args es (kept e f) = kept e f
  ran-SessionStep p q args es (opened d e f) = opened d e f
  ran-SessionStep p q args es (closed t r a b c d f) = closed t r a b c d f

  drained-SessionStep :
      (done : Bool) (p : Provider) (args : List String)
      → let (_, q, es) = (if done then close_session cli else pure tt) w p in
        SessionStep w p q (ran args ∷ es)
  drained-SessionStep true p args =
      ran-SessionStep p (close_session cli w p).1 args (close_session cli w p).2
        (close_session-SessionStep p)
  drained-SessionStep false p args = kept refl refl

  drain-SessionStep : (p : Provider) → SessionStep w p (drain cli w p).1 (drain cli w p).2
  drain-SessionStep p = elim (drain-cases cli w p) [
    | inl (e, unknown) ↦ rw e (kept refl refl)
    | inr e ↦
        rw e (drained-SessionStep (is_zero (rental_count w cli)) p (cli.cmd ∷ instances_args cli))
  ]

  dispatch-SessionStep :
      (t : ProviderState) (want : Bool) (p : Provider)
      → SessionStep w p (dispatch cli t want w p).1 (dispatch cli t want w p).2
  unfolding dispatch
  dispatch-SessionStep unlisted true p = do_list-SessionStep p
  dispatch-SessionStep unlisted false p = kept refl refl
  dispatch-SessionStep listed true p = kept refl refl
  dispatch-SessionStep listed false p = do_unlist-SessionStep p
  dispatch-SessionStep unlisting true p = do_list-SessionStep p
  dispatch-SessionStep unlisting false p = drain-SessionStep p
  dispatch-SessionStep listing want p = do_list-SessionStep p

pub update-SessionStep :
    (s : Schedule) (w : World) (p : Provider) → SessionStep w p (update s w p).1 (update s w p).2
unfolding update
update-SessionStep s w p = go p.cli
  where
    go :
        (c : Option Cli)
        → let (_, q, es) : Outcome (Unit {0}) × Provider × List Effect = elim c [
          | none ↦ (ok tt, p, [])
          | some cli ↦ dispatch cli p.state (want_listed w p s) w p
        ] in
          SessionStep w p q es
    go none = kept refl refl
    go (some cli) = dispatch-SessionStep cli w p.state (want_listed w p s) p

-- The ticks of a run, overrides aside, come with a clock that does not go back.
abbrev pub IsMonotone : ℕ → List Event → Type 0
IsMonotone t [] = Unit
IsMonotone t (overridden o ∷ es) = IsMonotone t es
IsMonotone t (tick s w ∷ es) = (t ≤ w.now) × IsMonotone w.now es

-- Rows in order: each begins no earlier than `t`, ends no earlier than it begins, and the rows
-- after it begin no earlier than its end.
abbrev pub IsChronological : ℕ → List Session → Type 0
IsChronological t [] = Unit
IsChronological t (r ∷ rs) =
    (t ≤ r.listed_at) × (r.listed_at ≤ r.unlisted_at) × IsChronological r.unlisted_at rs

-- An open session began between `b` and `t`.
abbrev pub IsOpenSince : ℕ → ℕ → Provider → Type 0
IsOpenSince b t p = (s : ℕ) → p.listed_at ≡ some s → (b ≤ s) × (s ≤ t)

run_sessions :
    (es : List Event) (b t : ℕ) (p : Provider)
    → b ≤ t
    → IsOpenSince b t p
    → IsMonotone t es
    → IsChronological b (sessions (run es p).1)
unfolding run
run_sessions [] b t p le h m = tt
run_sessions (overridden o ∷ es) b t p le h m =
    run_sessions es b t (set_override o p) le (unfold set_override in h) m
run_sessions (tick s w ∷ es) b t p le h m = rw sessions-append (
    go (update-SessionStep s w p)
      (λ c c_le h'. run_sessions es c w.now (update s w p).1 c_le h' m.1))
  where
    go :
        SessionStep w p (update s w p).1 (update s w p).2
        → ((c : ℕ)
            → c ≤ w.now
            → IsOpenSince c w.now (update s w p).1
            → IsChronological c (sessions (run es (update s w p).1).1))
        → IsChronological b (sessions (update s w p).2 ++ sessions (run es (update s w p).1).1)
    go (kept e f) rest = rw f (
        rest b (omega (arith, m.0))
          (λ u g. let x = h u (sym e ∙ g) in (x.0, omega (arith, x, m.0))))
    go (opened d e f) rest = rw f (rest b (omega (arith, m.0)) (λ u g. ground (arith, m.0)))
    go (closed since r a e c d (inl f)) rest = rw f (rest b (omega (arith, m.0)) (λ u g. cc))
    go (closed since r a e c d (inr f)) rest =
        let x = h since a in
        rw f (omega (arith, x), omega (arith, x, m.0), rest r.unlisted_at (omega arith) (λ u g. cc))

-- However ticks and overrides follow one another from a fresh provider, as long as the clock does
-- not go back: the rows of the payout log are sessions that do not overlap, in the order of time,
-- and none ends before it begins.
pub run-IsChronological :
    (es : List Event) (cli : Option Cli) (pre_list : ℕ) (payout_log : String) (has_callback : Bool)
    → IsMonotone 0 es
    → IsChronological 0 (sessions (run es (init cli pre_list payout_log has_callback)).1)
run-IsChronological es cli pre_list payout_log has_callback m =
    run_sessions es 0 0 (init cli pre_list payout_log has_callback) (omega arith) (λ u g. cc) m
