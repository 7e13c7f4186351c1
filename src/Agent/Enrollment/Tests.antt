-- ===== src/Agent/Enrollment/Tests.antt =====
-- A first start, with two tokens of which the first is blank.
use hadcd_agent.Base.{◌≡◌, refl, true, false, none, some, []}
use hadcd_agent.Base.Text.{Text, codes, strip, is_space, split_commas}
use hadcd_agent.Agent.State.{State, enrolled}
use hadcd_agent.Agent.Enrollment.{enrollment_token, fails, gives, resume, ensure_enrolled}
use hadcd_agent.Agent.Enrollment.Resume.{IsEnrolled, enrollment-resumes}

abbrev blank : State
blank = record { node_id = none; node_token = none; saved_setpoint_c = none; cached_models = [] }

abbrev token_list : Text
token_list = codes " , t1 ,t2"

second_token : enrollment_token token_list ≡ codes "t1"
unfolding enrollment_token split_commas strip is_space
second_token = refl

enrollment-resumes_example :
    IsEnrolled (ensure_enrolled token_list true (gives (some "7") (some "k")) blank none)
    × (ensure_enrolled [] false fails
          (ensure_enrolled token_list true (gives (some "7") (some "k")) blank none).state
          (ensure_enrolled token_list true (gives (some "7") (some "k")) blank none).file
        ≡ resume
            (ensure_enrolled token_list true (gives (some "7") (some "k")) blank none).state
            (ensure_enrolled token_list true (gives (some "7") (some "k")) blank none).file)
unfolding ensure_enrolled enrolled split_commas strip is_space
enrollment-resumes_example =
    enrollment-resumes token_list [] true false (gives (some "7") (some "k")) fails blank none refl
      refl
