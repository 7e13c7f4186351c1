-- ===== src/Container.antt =====
-- The container task handler (hadcd_workloads/container.py): what a dispatched task may ask for.
pub mod Security
pub mod Mounts
pub mod Volumes
pub mod Run
mod Tests
use hadcd_agent.Base.{Option, none, some}

-- How a helper ends: with a value, or by one of the exceptions that fail the task.
pub data Result (A : Type 0) : Type 0 where
  returns : A → Result A
  value_error execution_error api_error : Result A

abbrev pub bind : {A B : Type 0} → Result A → (A → Result B) → Result B
bind (returns a) k = k a
bind value_error k = value_error
bind execution_error k = execution_error
bind api_error k = api_error

-- What holds of the value, if one is returned.
abbrev pub Returns : {A : Type 0} → (A → Type 0) → Result A → Type 0
Returns P (returns a) = P a
Returns P value_error = Unit
Returns P execution_error = Unit
Returns P api_error = Unit

pub bind-Returns :
    {A B : Type 0} (P : A → Type 0) (Q : B → Type 0) (r : Result A) (k : A → Result B)
    → Returns P r
    → ((a : A) → P a → Returns Q (k a))
    → Returns Q (bind r k)
bind-Returns P Q (returns a) k p q = q a p
bind-Returns P Q value_error k p q = tt
bind-Returns P Q execution_error k p q = tt
bind-Returns P Q api_error k p q = tt

pub Returns-any : {A : Type 0} (r : Result A) → Returns (λ a. Unit) r
Returns-any (returns a) = tt
Returns-any value_error = tt
Returns-any execution_error = tt
Returns-any api_error = tt
