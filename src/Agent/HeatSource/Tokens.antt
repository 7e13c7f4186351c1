-- ===== src/Agent/HeatSource/Tokens.antt =====
-- The tokens of Ecobee (`_ensure_access_token` of agent/heat_source.py) over any run of reads.
use hadcd_agent.Base.{
  ℕ, ◌+◌, ◌<◌, ◌≡◌, refl, sym, ap, ◌∙◌, ◌⊎◌, inl, inr, String, Bool, true, false, ◌||◌, Option,
  none, some, List, [], ◌∷◌, All, arith, Bool-cases, Option-cases, str_eq,
}
use mathlib.Core.Path.{subst}
use mathlib.Core.Bool.{true≢false}
use hadcd_agent.Agent.HeatSource.{Answer, returns, named, unnamed}
use hadcd_agent.Agent.HeatSource.Ecobee.{
  Tokens, Grant, is_current, keep_refresh, keep_expiry, take_grant, refresh, ensure_access_token,
}

-- The file has the refresh token that is in use.
abbrev pub IsKept : Tokens → Type 0
IsKept t = t.stored ≡ t.refresh_token

-- One read: the time, whether the state file takes a write, and the answer to a refresh.
abbrev pub Call : Type 0
Call = ℕ × Bool × Answer Grant

unfoldable pub refreshes : List Call → Tokens → Tokens
unfolding ensure_access_token
refreshes [] t = t
refreshes ((now, is_written, answer) ∷ cs) t =
    refreshes cs (ensure_access_token now is_written answer t).0

keep-IsKept : (new : Option String) (t : Tokens) → IsKept t → IsKept (keep_refresh true new t).0
unfolding keep_refresh
keep-IsKept none t k = k
keep-IsKept (some new) t k = elim (Bool-cases (str_eq new "" || str_eq new t.refresh_token)) [
  | inl same ↦ rw (keep_refresh, same) k
  | inr other ↦ rw (keep_refresh, other) refl
]

expiry-IsKept :
    (now : ℕ) (e : Answer ℕ) (new : Option String) (t : Tokens)
    → IsKept t
    → IsKept (keep_expiry now true e new t).0
unfolding keep_expiry
expiry-IsKept now named new t k = k
expiry-IsKept now unnamed new t k = k
expiry-IsKept now (returns n) new t k = keep-IsKept new (record t { access_expires_at = now + n }) k

take-IsKept : (now : ℕ) (g : Grant) (t : Tokens) → IsKept t → IsKept (take_grant now true g t).0
unfolding take_grant
take-IsKept now g t k = elim (Option-cases g.access_token) [
  | inl lacks ↦ rw (take_grant, lacks) k
  | inr (token, has) ↦
      rw (take_grant, has)
        (expiry-IsKept now g.expires_in g.refresh_token (record t { access_token = token }) k)
]

refresh-IsKept :
    (now : ℕ) (answer : Answer Grant) (t : Tokens) → IsKept t → IsKept (refresh now true answer t).0
unfolding refresh
refresh-IsKept now named t k = k
refresh-IsKept now unnamed t k = k
refresh-IsKept now (returns g) t k = take-IsKept now g t k

ensure-IsKept :
    (now : ℕ) (answer : Answer Grant) (t : Tokens)
    → IsKept t
    → IsKept (ensure_access_token now true answer t).0
unfolding ensure_access_token
ensure-IsKept now answer t k = elim (Bool-cases (is_current now t)) [
  | inl current ↦ rw (ensure_access_token, current) k
  | inr old ↦ rw (ensure_access_token, old) (refresh-IsKept now answer t k)
]

-- While the state file takes every write, it holds the refresh token in use after any run of reads,
-- whatever the service answers and whatever fails.
pub refreshes-IsKept :
    (cs : List Call) (t : Tokens) → All (λ c. c.1 ≡ true) cs → IsKept t → IsKept (refreshes cs t)
unfolding refreshes
refreshes-IsKept [] t w k = k
refreshes-IsKept ((now, is_written, answer) ∷ cs) t (w, ws) k =
    rw (refreshes, w)
      (refreshes-IsKept cs (ensure_access_token now true answer t).0 ws
        (ensure-IsKept now answer t k))

-- The access token came from this response, with its expiry.
abbrev pub IsGranted : ℕ → Answer Grant → Tokens → Type 0
IsGranted now answer t =
    (g : Grant) × (n : ℕ) × (answer ≡ returns g)
    × (g.access_token ≡ some t.access_token)
    × (g.expires_in ≡ returns n)
    × (t.access_expires_at ≡ now + n)

keep_refresh-access :
    (is_written : Bool) (new : Option String) (t : Tokens)
    → ((keep_refresh is_written new t).0.access_token ≡ t.access_token)
      × ((keep_refresh is_written new t).0.access_expires_at ≡ t.access_expires_at)
unfolding keep_refresh
keep_refresh-access is_written none t = (refl, refl)
keep_refresh-access is_written (some new) t = ground arith

named-ne-returns : ◌≡◌ {A = Answer (Unit {0})} named (returns tt) → ⊥
named-ne-returns e =
    true≢false (ap (λ a. elim a [ named ↦ true | unnamed ↦ false | returns u ↦ false ]) e)

unnamed-ne-returns : ◌≡◌ {A = Answer (Unit {0})} unnamed (returns tt) → ⊥
unnamed-ne-returns e =
    true≢false (ap (λ a. elim a [ named ↦ false | unnamed ↦ true | returns u ↦ false ]) e)

expiry-IsGranted :
    (now : ℕ) (is_written : Bool) (e : Answer ℕ) (new : Option String) (t : Tokens)
    → (keep_expiry now is_written e new t).1 ≡ returns tt
    → (n : ℕ) × (e ≡ returns n)
      × ((keep_expiry now is_written e new t).0.access_token ≡ t.access_token)
      × ((keep_expiry now is_written e new t).0.access_expires_at ≡ now + n)
unfolding keep_expiry
expiry-IsGranted now is_written named new t e = elim (named-ne-returns e) [ ]
expiry-IsGranted now is_written unnamed new t e = elim (unnamed-ne-returns e) [ ]
expiry-IsGranted now is_written (returns n) new t e =
    let (a, b) = keep_refresh-access is_written new (record t { access_expires_at = now + n }) in
    (n, refl, a, b)

refresh-IsGranted :
    (now : ℕ) (is_written : Bool) (answer : Answer Grant) (t : Tokens)
    → (refresh now is_written answer t).1 ≡ returns tt
    → IsGranted now answer (refresh now is_written answer t).0
unfolding refresh take_grant
refresh-IsGranted now is_written named t e = elim (named-ne-returns e) [ ]
refresh-IsGranted now is_written unnamed t e = elim (unnamed-ne-returns e) [ ]
refresh-IsGranted now is_written (returns g) t e = elim (Option-cases g.access_token) [
  | inl lacks ↦ elim (named-ne-returns (rw (take_grant, lacks) at e)) [ ]
  | inr (token, has) ↦
      let start : Tokens = record t { access_token = token } in
      let same : take_grant now is_written g t
          ≡ keep_expiry now is_written g.expires_in g.refresh_token start =
        rw (take_grant, has) refl in
      let (n, expiry, a, b) =
        expiry-IsGranted now is_written g.expires_in g.refresh_token start
          (sym (ap (λ r. r.1) same) ∙ e) in
      subst (λ r. IsGranted now (returns g) r.0) (sym same)
        (g, n, refl, has ∙ ap (λ x. some x) (sym a), expiry, b)
]

before_expiry :
    (now : ℕ) (t : Tokens)
    → is_current now t ≡ true
    → (str_eq t.access_token "" ≡ false) × (now + 60 < t.access_expires_at)
unfolding is_current
before_expiry now t e = (ground arith, ground arith)

-- Where it returns, either all tokens are as they were, and there is an access token in use that has
-- more than 60 seconds left; or the access token is the one of this response, with the expiry that
-- the response gives.
pub ensure_access_token-IsFresh :
    (now : ℕ) (is_written : Bool) (answer : Answer Grant) (t : Tokens)
    → (ensure_access_token now is_written answer t).1 ≡ returns tt
    → (((ensure_access_token now is_written answer t).0 ≡ t)
        × (str_eq t.access_token "" ≡ false)
        × (now + 60 < t.access_expires_at))
      ⊎ IsGranted now answer (ensure_access_token now is_written answer t).0
unfolding ensure_access_token is_current
ensure_access_token-IsFresh now is_written answer t e = elim (Bool-cases (is_current now t)) [
  | inl current ↦
      rw (ensure_access_token, current)
        (let (there, left) = before_expiry now t current in inl (refl, there, left))
  | inr old ↦
      rw (ensure_access_token, old)
        (inr (refresh-IsGranted now is_written answer t (rw (ensure_access_token, old) at e)))
]
