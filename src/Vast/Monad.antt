-- ===== src/Vast/Monad.antt =====
-- A method call of `VastProvider`: it reads the world, changes the provider, leaves a trace of
-- effects, and may raise. What was written before a raise stays written, as in Python.
use hadcd_agent.Base.{
  ◌≡◌, refl, ℕ, String, Bool, true, false, Option, List, [], ◌∷◌, ◌++◌, All, All-append,
  if◌then◌else◌,
}
use hadcd_agent.Base.Int.{ℤ}
use hadcd_agent.Base.Json.{Value, Decimal}

-- What a subprocess call comes to: an exit with both streams, one of the two exceptions that `_exec`
-- catches, or another one (such as a PermissionError or a UnicodeDecodeError), which leaves it.
pub data RunOutcome : Type 0 where
  exited : ℤ → String → String → RunOutcome
  not_found timed_out failed : RunOutcome

-- A parsed time stamp: a wall-clock time with no zone, or an instant. Both in microseconds.
pub data Datetime : Type 0 where
  naive aware : ℕ → Datetime

-- What one tick meets: the replies of the `vastai` binary, the clock, and the parsers and printers
-- of Python's library (`json.loads`, `str`, `float`, `datetime.fromisoformat`), where `none` is the
-- exception that the code catches. `event_loop` says whether the calling thread has an event loop.
pub record World : Type 0 where
  pub run : List String → RunOutcome
  pub now : ℕ
  pub event_loop : Bool
  pub loads : String → Option Value
  pub str_of : Value → String
  pub float_of : String → Option Decimal
  pub fromisoformat : String → Option Datetime

pub data ProviderState : Type 0 where
  unlisted listing listed unlisting : ProviderState

pub record Cli : Type 0 where
  pub machine_id : String
  pub cmd : String

pub record Provider : Type 0 where
  pub cli : Option Cli
  pub pre_list : ℕ
  pub payout_log : String
  pub has_callback : Bool
  pub state : ProviderState
  pub listed_at : Option ℕ
  pub listing_price : Option Decimal
  pub override : Option String

pub record Session : Type 0 where
  pub machine_id : String
  pub listed_at : ℕ
  pub unlisted_at : ℕ
  pub price : Option Decimal

-- A command line that ran, a row for the payout log, a rental handed to the backend callback.
pub data Effect : Type 0 where
  ran : List String → Effect
  logged posted : Session → Effect

pub data Outcome (A : Type 0) : Type 0 where
  ok : A → Outcome A
  raised : Outcome A

abbrev pub Action : Type 0 → Type 0
Action A = World → Provider → Outcome A × Provider × List Effect

abbrev pub pure : {A : Type 0} → A → Action A
pure a w p = (ok a, p, [])

abbrev pub raise : {A : Type 0} → Action A
raise w p = (raised, p, [])

infixl 5 ◌>>=◌ ◌>>◌
abbrev pub ◌>>=◌ : {A B : Type 0} → Action A → (A → Action B) → Action B
◌>>=◌ m f w p =
    let (r, q, es) = m w p in
    elim r [ ok a ↦ let (r', q', fs) = f a w q in (r', q', es ++ fs) | raised ↦ (raised, q, es) ]

abbrev pub ◌>>◌ : {A B : Type 0} → Action A → Action B → Action B
m >> k = m >>= λ _. k

abbrev pub gets : {A : Type 0} → (Provider → A) → Action A
gets f w p = (ok (f p), p, [])

abbrev pub asks : {A : Type 0} → (World → A) → Action A
asks f w p = (ok (f w), p, [])

abbrev pub modify : (Provider → Provider) → Action (Unit {0})
modify f w p = (ok tt, f p, [])

abbrev pub emit : Effect → Action (Unit {0})
emit e w p = (ok tt, p, e ∷ [])

module _ {A B : Type 0} (P : Effect → Type 0) (f : A → Action B) (w : World) where
  bind_cases :
      (t : Outcome A × Provider × List Effect)
      → All P t.2
      → ((a : A) (q : Provider) → All P (f a w q).2)
      → All P (◌>>=◌ (λ _ _. t) f w t.1).2
  bind_cases (ok a, q, es) h k = All-append P es (f a w q).2 h (k a q)
  bind_cases (raised, q, es) h k = h

  -- What holds of the effects of both parts holds of all effects of a sequence.
  pub All-bind :
      (m : Action A) (p : Provider)
      → All P (m w p).2
      → ((a : A) (q : Provider) → All P (f a w q).2)
      → All P ((m >>= f) w p).2
  All-bind m p h k = bind_cases (m w p) h k

pub All-if :
    {A : Type 0} (P : Effect → Type 0) (b : Bool) (m k : Action A) (w : World) (p : Provider)
    → (b ≡ true → All P (m w p).2)
    → (b ≡ false → All P (k w p).2)
    → All P ((if b then m else k) w p).2
All-if P true m k w p hm hk = hm refl
All-if P false m k w p hm hk = hk refl
