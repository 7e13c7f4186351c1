-- ===== src/Setup/EcobeePin/Tests.antt =====
-- Runs of the set-up of Ecobee: a poll that waits twice, and a choice between two thermostats.
use hadcd_agent.Base.{arith, ℕ, zero, suc, ◌≡◌, refl, ◌⊎◌, true, none, some, [], ◌∷◌}
use hadcd_agent.Base.Int.{pos}
use hadcd_agent.Base.Json.{Value, str, arr, obj, field, end, cons, nil}
use hadcd_agent.Agent.HeatSource.{returns}
use hadcd_agent.Setup.EcobeePin.{
  responds, granted, Service, poll, react, read_error, is_pending, resume, picked, item_at, Answers,
  main,
}
use hadcd_agent.Setup.EcobeePin.Polling.{IsDocumented, IsEnd, poll_ends}
use hadcd_agent.Setup.EcobeePin.Choice.{IsFailed, IsSetUp, main-cases}

abbrev waiting : Value
waiting = obj (field "error" (str "authorization_pending") end)

abbrev tokens : Value
tokens = obj (field "access_token" (str "a") (field "refresh_token" (str "r") end))

-- Two requests before the PIN is entered, each of which takes a second
abbrev service : Service
service zero = (responds 400 (some waiting), 1)
service (suc zero) = (responds 400 (some waiting), 1)
service (suc (suc n)) = (responds 200 (some tokens), 1)

service-IsDocumented : (k : ℕ) → IsDocumented (service k).0
service-IsDocumented zero = refl
service-IsDocumented (suc zero) = refl
service-IsDocumented (suc (suc k)) = refl

poll_ends_example : IsEnd service 600 0 0 (poll service 600 121 0 0)
poll_ends_example = poll_ends service 600 120 0 0 service-IsDocumented (omega arith)

polled : poll service 600 121 0 0 ≡ (granted (some tokens), 3)
unfolding poll react read_error is_pending resume
polled = refl

abbrev first : Value
first = obj (field "identifier" (str "311") end)

abbrev second : Value
second = obj (field "identifier" (str "411") end)

abbrev answers : Answers
answers = record {
  api_key = "k";
  pin = returns (obj (field "ecobeePin" (str "p") (field "code" (str "c") end)));
  token = granted (some tokens);
  thermostats = returns (obj (field "thermostatList" (arr (cons first (cons second nil))) end));
  picks = none ∷ some (pos 3) ∷ some (pos 1) ∷ [];
  is_written = true;
}

main-cases_example : IsFailed none (main answers none) ⊎ IsSetUp answers (main answers none)
main-cases_example = main-cases answers none

set_up : main answers none ≡ (some 0, some (str "r", str "311"))
unfolding main
set_up = refl

-- The prompt offers 1 and 2; 0 picks the last one.
picked_zero : picked (pos 0) (first ∷ second ∷ []) ≡ some second
unfolding picked item_at
picked_zero = refl
