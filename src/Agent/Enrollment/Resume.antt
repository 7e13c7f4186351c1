-- ===== src/Agent/Enrollment/Resume.antt =====
-- A node enrolls once (`ensure_enrolled` of agent/agent.py, with `AgentState` of agent/state.py).
use hadcd_agent.Base.{
  ◌≡◌, refl, sym, ap, ◌∙◌, inl, inr, String, Bool, true, false, Option, none, some, [], ◌∷◌,
  Bool-cases,
}
use mathlib.Core.Path.{subst}
use mathlib.Core.Bool.{true≢false}
use hadcd_agent.Base.Json.{Value}
use hadcd_agent.Base.Text.{Text, text_eq}
use hadcd_agent.Agent.State.{State, enrolled, load, loaded}
use hadcd_agent.Agent.State.Persistence.{load-save}
use hadcd_agent.Agent.Enrollment.{
  enrollment_token, Answer, fails, gives, Enrollment, keep, take_identity, register, enroll, resume,
  ensure_enrolled,
}

-- The state is an identity, and the file gives it back.
abbrev pub IsEnrolled : Enrollment → Type 0
IsEnrolled e = (enrolled e.state ≡ true) × (load e.file ≡ loaded e.state)

keep-IsEnrolled :
    (is_saved : Bool) (e : Enrollment)
    → enrolled e.state ≡ true
    → (keep is_saved e).has_raised ≡ false
    → IsEnrolled (keep is_saved e)
unfolding keep
keep-IsEnrolled true e i h = (i, load-save e.state i)
keep-IsEnrolled false e i h = absurd (true≢false h)

take-IsEnrolled :
    (is_saved : Bool) (i t : Option String) (e : Enrollment)
    → (take_identity is_saved i t e).has_raised ≡ false
    → IsEnrolled (take_identity is_saved i t e)
unfolding take_identity enrolled
take-IsEnrolled is_saved none t e h = absurd (true≢false h)
take-IsEnrolled is_saved (some i) none e h = absurd (true≢false h)
take-IsEnrolled is_saved (some i) (some t) e h =
    keep-IsEnrolled is_saved
      (record e { state = record e.state { node_id = some i; node_token = some t } }) refl h

register-IsEnrolled :
    (is_saved : Bool) (answer : Answer) (e : Enrollment)
    → (register is_saved answer e).has_raised ≡ false
    → IsEnrolled (register is_saved answer e)
unfolding register
register-IsEnrolled is_saved fails e h = absurd (true≢false h)
register-IsEnrolled is_saved (gives i t) e h = take-IsEnrolled is_saved i t e h

enroll-IsEnrolled :
    (token : Text) (is_saved : Bool) (answer : Answer) (s : State) (file : Option Value)
    → (enroll token is_saved answer s file).has_raised ≡ false
    → IsEnrolled (enroll token is_saved answer s file)
unfolding enroll
enroll-IsEnrolled token is_saved answer s file h = elim (Bool-cases (text_eq token [])) [
  | inl blank ↦
      let end : enroll token is_saved answer s file
          ≡ record { state = s; file = file; sent = []; has_raised = true } =
        rw (enroll, blank) refl in
      absurd (true≢false (ap (λ e. e.has_raised) (sym end) ∙ h))
  | inr given ↦
      let end : enroll token is_saved answer s file
          ≡ register is_saved answer
              (record { state = s; file = file; sent = token ∷ []; has_raised = false }) =
        rw (enroll, given) refl in
      subst IsEnrolled (sym end) (
        register-IsEnrolled is_saved answer
          (record { state = s; file = file; sent = token ∷ []; has_raised = false })
          (ap (λ e. e.has_raised) (sym end) ∙ h))
]

again_resumes :
    (tokens : Text) (saves : Bool) (answer : Answer) (e : Enrollment)
    → enrolled e.state ≡ true
    → ensure_enrolled tokens saves answer e.state e.file ≡ resume e.state e.file
unfolding ensure_enrolled
again_resumes tokens saves answer e i = rw (ensure_enrolled, i) refl

-- A node without an identity whose enrollment ends well has one, which its file gives back. Started
-- again, with whatever settings and answers, it takes it up: it sends no token and changes nothing.
pub enrollment-resumes :
    (tokens again : Text) (is_saved saves : Bool) (answer other : Answer) (s : State)
    (file : Option Value)
    → enrolled s ≡ false
    → (ensure_enrolled tokens is_saved answer s file).has_raised ≡ false
    → IsEnrolled (ensure_enrolled tokens is_saved answer s file)
      × (ensure_enrolled again saves other
            (ensure_enrolled tokens is_saved answer s file).state
            (ensure_enrolled tokens is_saved answer s file).file
          ≡ resume
              (ensure_enrolled tokens is_saved answer s file).state
              (ensure_enrolled tokens is_saved answer s file).file)
unfolding ensure_enrolled
enrollment-resumes tokens again is_saved saves answer other s file new ok =
    let end : ensure_enrolled tokens is_saved answer s file
        ≡ enroll (enrollment_token tokens) is_saved answer s file =
      rw (ensure_enrolled, new) refl in
    let done : IsEnrolled (enroll (enrollment_token tokens) is_saved answer s file) =
      enroll-IsEnrolled (enrollment_token tokens) is_saved answer s file
        (ap (λ e. e.has_raised) (sym end) ∙ ok) in
    let held : IsEnrolled (ensure_enrolled tokens is_saved answer s file) =
      subst IsEnrolled (sym end) done in
    (held, again_resumes again saves other (ensure_enrolled tokens is_saved answer s file) held.0)
