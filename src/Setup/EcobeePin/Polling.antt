-- ===== src/Setup/EcobeePin/Polling.antt =====
-- The poll for a token ends (`_poll_for_token` of agent/ecobee_setup.py).
use hadcd_agent.Base.{
  ℕ, zero, suc, ◌+◌, ◌-◌, ◌*◌, ◌≤◌, ◌<◌, ◌≡◌, refl, ap, inl, inr, Bool, true, false, ◌&&◌, Option,
  none, some, arith, Bool-cases, ltb, leb, ◌==◌,
}
use hadcd_agent.Base.Json.{Value, null, bool, num, str, arr, obj, get_or}
use hadcd_agent.Setup.EcobeePin.{
  Reply, fails, responds, Outcome, granted, http_error, timed_out, crashed, unfinished, Next, ends,
  sleeps, again, raise_for_status, is_pending, read_error, react, Service, resume, poll,
}

-- The outcome is one.
unfoldable pub is_final : Outcome → Bool
is_final unfinished = false
is_final http_error = true
is_final timed_out = true
is_final crashed = true
is_final (granted v) = true

-- A reply never ends the loop without an outcome, and goes on at once only on a status of success
-- that is not 200.
abbrev IsSettled : Next → Type 0
IsSettled (ends outcome) = is_final outcome ≡ true
IsSettled sleeps = Unit
IsSettled again = ⊥

-- The service answers with no status of success but 200.
abbrev pub IsDocumented : Reply → Type 0
IsDocumented fails = Unit
IsDocumented (responds status body) = (leb 201 status && ltb status 300) ≡ false

-- A token that is granted is the body of a response.
abbrev pub IsHonest : Service → Outcome → Type 0
IsHonest service (granted body) = (n : ℕ) × ((service n).0 ≡ responds 200 body)
IsHonest service http_error = Unit
IsHonest service timed_out = Unit
IsHonest service crashed = Unit
IsHonest service unfinished = Unit

read_error-IsSettled : (body : Option Value) → IsSettled (read_error body)
unfolding read_error raise_for_status is_final
read_error-IsSettled none = refl
read_error-IsSettled (some null) = refl
read_error-IsSettled (some (bool b)) = refl
read_error-IsSettled (some (num d)) = refl
read_error-IsSettled (some (str s)) = refl
read_error-IsSettled (some (arr xs)) = refl
read_error-IsSettled (some (obj fs)) = elim (Bool-cases (is_pending (get_or "error" null fs))) [
  | inl waits ↦ rw (read_error, waits) tt
  | inr other ↦ rw (read_error, other) refl
]

raise-IsSettled :
    (status : ℕ)
    → (status == 200) ≡ false
    → (leb 201 status && ltb status 300) ≡ false
    → IsSettled (raise_for_status status)
unfolding raise_for_status is_final
raise-IsSettled status other h =
    let bad : (leb 200 status && ltb status 300) ≡ false = ground arith in
    rw (raise_for_status, bad) refl

react-IsSettled : (reply : Reply) → IsDocumented reply → IsSettled (react reply)
unfolding react is_final
react-IsSettled fails h = refl
react-IsSettled (responds status body) h = elim (Bool-cases (status == 200)) [
  | inl good ↦ rw (react, good) refl
  | inr other ↦ elim (Bool-cases (status == 400)) [
    | inl bad ↦ rw (react, other, bad) (read_error-IsSettled body)
    | inr rest ↦ rw (react, other, rest) (raise-IsSettled status other h)
  ]
]

-- What a reply grants is its body.
abbrev IsBody : Reply → Next → Type 0
IsBody reply (ends (granted body)) = reply ≡ responds 200 body
IsBody reply (ends http_error) = Unit
IsBody reply (ends timed_out) = Unit
IsBody reply (ends crashed) = Unit
IsBody reply (ends unfinished) = Unit
IsBody reply sleeps = Unit
IsBody reply again = Unit

raise-IsBody : (reply : Reply) (status : ℕ) → IsBody reply (raise_for_status status)
unfolding raise_for_status
raise-IsBody reply status = elim (Bool-cases (leb 200 status && ltb status 300)) [
  | inl good ↦ rw (raise_for_status, good) tt
  | inr bad ↦ rw (raise_for_status, bad) tt
]

read_error-IsBody : (reply : Reply) (body : Option Value) → IsBody reply (read_error body)
unfolding read_error raise_for_status
read_error-IsBody reply none = tt
read_error-IsBody reply (some null) = tt
read_error-IsBody reply (some (bool b)) = tt
read_error-IsBody reply (some (num d)) = tt
read_error-IsBody reply (some (str s)) = tt
read_error-IsBody reply (some (arr xs)) = tt
read_error-IsBody reply (some (obj fs)) = elim (Bool-cases (is_pending (get_or "error" null fs))) [
  | inl waits ↦ rw (read_error, waits) tt
  | inr other ↦ rw (read_error, other) tt
]

react-IsBody : (reply : Reply) → IsBody reply (react reply)
unfolding react
react-IsBody fails = tt
react-IsBody (responds status body) = elim (Bool-cases (status == 200)) [
  | inl good ↦
      let same : status ≡ 200 = ground arith in rw (react, good) (ap (λ s. responds s body) same)
  | inr other ↦ elim (Bool-cases (status == 400)) [
    | inl bad ↦ rw (react, other, bad) (read_error-IsBody (responds status body) body)
    | inr rest ↦ rw (react, other, rest) (raise-IsBody (responds status body) status)
  ]
]

-- The poll has ended, honestly, after requests that are five seconds apart.
abbrev pub IsEnd : Service → ℕ → ℕ → ℕ → Outcome × ℕ → Type 0
IsEnd service deadline n now (outcome, requests) =
    (is_final outcome ≡ true)
    × (5 * requests ≤ 5 * n + ((deadline + 4) - now))
    × IsHonest service outcome

module _ (service : Service) (deadline : ℕ) where
  resume-IsEnd :
      (next : Next) (slept at_once : Outcome × ℕ) (n now : ℕ)
      → now < deadline
      → IsSettled next
      → IsBody (service n).0 next
      → IsEnd service deadline n now slept
      → IsEnd service deadline n now (resume next slept at_once n)
  unfolding resume
  resume-IsEnd (ends (granted v)) slept at_once n now early s b e = (s, omega arith, (n, b))
  resume-IsEnd (ends http_error) slept at_once n now early s b e = (s, omega arith, tt)
  resume-IsEnd (ends timed_out) slept at_once n now early s b e = (s, omega arith, tt)
  resume-IsEnd (ends crashed) slept at_once n now early s b e = (s, omega arith, tt)
  resume-IsEnd (ends unfinished) slept at_once n now early s b e = (s, omega arith, tt)
  resume-IsEnd sleeps slept at_once n now early s b e = e
  resume-IsEnd again slept at_once n now early s b e = elim s [ ]

  later-IsEnd :
      (n now took : ℕ) (r : Outcome × ℕ)
      → now < deadline
      → IsEnd service deadline (suc n) (now + took + 5) r
      → IsEnd service deadline n now r
  later-IsEnd n now took (outcome, requests) early (f, b, h) = (f, omega arith, h)

  -- With a service that answers with no status of success but 200, fuel for the time that is left,
  -- at five seconds a round, and one round more is enough: the poll ends with a token, an error or
  -- a time-out, it makes at most one request for each five seconds that begin before the deadline,
  -- and a token is the body of a response.
  pub poll_ends :
      (fuel n now : ℕ)
      → ((k : ℕ) → IsDocumented (service k).0)
      → deadline ≤ now + 5 * fuel
      → IsEnd service deadline n now (poll service deadline (suc fuel) n now)
  unfolding poll is_final
  poll_ends zero n now d enough = elim (Bool-cases (ltb now deadline)) [
    | inl early ↦ absurd (ground arith)
    | inr late ↦ rw (poll, late) (refl, omega arith, tt)
  ]
  poll_ends (suc fuel) n now d enough = elim (Bool-cases (ltb now deadline)) [
    | inl early ↦
        let soon : now < deadline = ground arith in
        rw (poll, early)
          (resume-IsEnd (react (service n).0)
            (poll service deadline (suc fuel) (suc n) (now + (service n).1 + 5))
            (poll service deadline (suc fuel) (suc n) (now + (service n).1)) n now soon
            (react-IsSettled (service n).0 (d n)) (react-IsBody (service n).0)
            (later-IsEnd n now (service n).1
              (poll service deadline (suc fuel) (suc n) (now + (service n).1 + 5)) soon
              (poll_ends fuel (suc n) (now + (service n).1 + 5) d (omega arith))))
    | inr late ↦ rw (poll, late) (refl, omega arith, tt)
  ]
