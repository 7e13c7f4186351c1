-- ===== src/Setup/EcobeePin/Choice.antt =====
-- What a run of the set-up leaves in the state file (`main` of agent/ecobee_setup.py).
use hadcd_agent.Base.{
  ℕ, zero, suc, ◌+◌, ◌-◌, ◌≡◌, refl, sym, ◌∙◌, ◌⊎◌, inl, inr, Bool, true, false, ◌&&◌, Option, none,
  some, List, [], ◌∷◌, Any, arith, Bool-cases, Option-cases, if◌then◌else◌, leb, length, str_eq,
}
use mathlib.Core.Path.{subst}
use mathlib.Core.Option.{some-ne-none}
use hadcd_agent.Base.Int.{ℤ, pos, negsuc}
use hadcd_agent.Base.Json.{Value, null, bool, num, str, arr, obj, Items, truthy, items}
use hadcd_agent.Agent.HeatSource.{Answer, returns, named, unnamed}
use hadcd_agent.Setup.EcobeePin.{
  Outcome, granted, http_error, timed_out, crashed, unfinished, item_at, picked, pick_loop,
  get_field, Answers, Exit, File, write_state_file, finish_choice, are_objects, choose, select,
  from_list, from_thermostats, from_tokens, from_poll, from_pin, from_answer, main,
}

module _ (P : Value → Type 0) (t : Value) (p : P t) where
  item_at-Any : (i : ℕ) (xs : List Value) → item_at i xs ≡ some t → Any P xs
  unfolding item_at
  item_at-Any i [] e = absurd (some-ne-none t (sym e))
  item_at-Any zero (x ∷ xs) e = let same : x ≡ t = cc in inl (subst P (sym same) p)
  item_at-Any (suc i) (x ∷ xs) e = inr (item_at-Any i xs e)

  picked-Any : (k : ℤ) (xs : List Value) → picked k xs ≡ some t → Any P xs
  unfolding picked
  picked-Any (pos zero) xs e = elim (Bool-cases (leb 1 (length xs))) [
    | inl here ↦ item_at-Any (length xs - 1) xs (rw here at e)
    | inr none_left ↦ absurd (some-ne-none t (sym (rw none_left at e)))
  ]
  picked-Any (pos (suc i)) xs e = item_at-Any i xs e
  picked-Any (negsuc k) xs e = elim (Bool-cases (leb (k + 2) (length xs))) [
    | inl here ↦ item_at-Any (length xs - (k + 2)) xs (rw here at e)
    | inr none_left ↦ absurd (some-ne-none t (sym (rw none_left at e)))
  ]

  pick_loop-Any : (ps : List (Option ℤ)) (xs : List Value) → pick_loop ps xs ≡ some t → Any P xs
  unfolding pick_loop
  pick_loop-Any [] xs e = absurd (some-ne-none t (sym e))
  pick_loop-Any (none ∷ ps) xs e = pick_loop-Any ps xs e
  pick_loop-Any (some k ∷ ps) xs e = elim (Option-cases (picked k xs)) [
    | inl missing ↦ pick_loop-Any ps xs (rw (pick_loop, missing) at e)
    | inr (u, there) ↦
        let same : some u ≡ some t = rw (pick_loop, there) at e in picked-Any k xs (there ∙ same)
  ]

  choose-Any : (ps : List (Option ℤ)) (xs : List Value) → choose ps xs ≡ some t → Any P xs
  unfolding choose
  choose-Any ps [] e = absurd (some-ne-none t (sym e))
  choose-Any ps (x ∷ []) e = let same : x ≡ t = cc in inl (subst P (sym same) p)
  choose-Any ps (x ∷ y ∷ xs) e = pick_loop-Any ps (x ∷ y ∷ xs) e

-- An exit by an error leaves the file.
abbrev pub IsFailed : File → Exit → Type 0
IsFailed file exit = (exit ≡ (some 2, file)) ⊎ (exit ≡ (none, file))

-- The file has the token and the identifier of a listed thermostat, which are both truthy.
abbrev pub IsChosen : Value → List Value → Exit → Type 0
IsChosen token thermostats exit =
    (id : Value) × (exit ≡ (some 0, some (token, id)))
    × (truthy id ≡ true)
    × Any (λ t. get_field "identifier" t ≡ some id) thermostats

finish-cases :
    (is_written : Bool) (token t : Value) (xs : List Value) (file : File)
    → ((id : Value)
        → get_field "identifier" t ≡ some id
        → Any (λ u. get_field "identifier" u ≡ some id) xs)
    → (o : Option Value) → get_field "identifier" t ≡ o
    → IsFailed file (finish_choice is_written token o file)
      ⊎ IsChosen token xs (finish_choice is_written token o file)
unfolding finish_choice write_state_file
finish-cases is_written token t xs file among none e = inl (inr refl)
finish-cases is_written token t xs file among (some id) e = elim (Bool-cases (truthy id)) [
  | inr blank ↦ rw (finish_choice, blank) (inl (inl refl))
  | inl there ↦ elim (Bool-cases is_written) [
    | inl good ↦
        rw (finish_choice, there, write_state_file, good) (inr (id, refl, there, among id e))
    | inr bad ↦ rw (finish_choice, there, write_state_file, bad) (inl (inr refl))
  ]
]

select-cases :
    (a : Answers) (token : Value) (xs : List Value) (file : File)
    → IsFailed file (select a token xs file) ⊎ IsChosen token xs (select a token xs file)
unfolding select
select-cases a token xs file = elim (Bool-cases (are_objects xs)) [
  | inr odd ↦ rw (select, odd) (inl (inr refl))
  | inl fine ↦ elim (Option-cases (choose a.picks xs)) [
    | inl no_prompt ↦ rw (select, fine, no_prompt) (inl (inr refl))
    | inr (t, found) ↦
        let end : select a token xs file
            ≡ finish_choice a.is_written token (get_field "identifier" t) file =
          rw (select, fine, found) refl in
        subst (λ x. IsFailed file x ⊎ IsChosen token xs x) (sym end)
          (finish-cases a.is_written token t xs file
            (λ id e. choose-Any (λ u. get_field "identifier" u ≡ some id) t e a.picks xs found)
            (get_field "identifier" t) refl)
  ]
]

-- The list of thermostats that the service answered.
abbrev pub IsListed : Answers → Items → Type 0
IsListed a xs =
    (v : Value) × (a.thermostats ≡ returns v) × (get_field "thermostatList" v ≡ some (arr xs))

-- With the refresh token of the response, and a thermostat of the list.
abbrev pub IsSetUp : Answers → Exit → Type 0
IsSetUp a exit =
    (token : Value) × (body : Value) × (xs : Items) × (a.token ≡ granted (some body))
    × (get_field "refresh_token" body ≡ some token)
    × (truthy token ≡ true)
    × IsListed a xs
    × IsChosen token (items xs) exit

-- What a step of `main` leads to, given the token.
abbrev IsDone : Answers → File → Value → Exit → Type 0
IsDone a file token exit =
    IsFailed file exit ⊎ ((xs : Items) × IsListed a xs × IsChosen token (items xs) exit)

module _ (a : Answers) (token : Value) (file : File) where
  choice : (b : Bool) → IsFailed file ((if b then none else some 2), file)
  choice true = inr refl
  choice false = inl refl

  list-cases :
      (v : Value)
      → a.thermostats ≡ returns v
      → (l : Value) → get_field "thermostatList" v ≡ some l
      → IsDone a file token (from_list a token l file)
  unfolding from_list
  list-cases v s null e = inl (inl refl)
  list-cases v s (bool b) e = inl (choice b)
  list-cases v s (num d) e = inl (choice (truthy (num d)))
  list-cases v s (str x) e = inl (choice (truthy (str x)))
  list-cases v s (obj fs) e = inl (choice (truthy (obj fs)))
  list-cases v s (arr xs) e = elim (Bool-cases (truthy (arr xs))) [
    | inr empty ↦ rw (from_list, empty) (inl (inl refl))
    | inl filled ↦
        rw (from_list, filled)
          (elim (select-cases a token (items xs) file) [
            | inl failed ↦ inl failed
            | inr chosen ↦ inr (xs, (v, s, e), chosen)
          ])
  ]

  thermostats-cases :
      (answer : Answer Value)
      → a.thermostats ≡ answer
      → IsDone a file token (from_thermostats a token answer file)
  unfolding from_thermostats
  thermostats-cases named e = inl (inl refl)
  thermostats-cases unnamed e = inl (inr refl)
  thermostats-cases (returns v) e = elim (Option-cases (get_field "thermostatList" v)) [
    | inl odd ↦ rw (from_thermostats, odd) (inl (inr refl))
    | inr (l, there) ↦ rw (from_thermostats, there) (list-cases v e l there)
  ]

module _ (a : Answers) (file : File) where
  abbrev IsRunEnd : Exit → Type 0
  IsRunEnd exit = IsFailed file exit ⊎ IsSetUp a exit

  tokens-cases :
      (body : Value)
      → a.token ≡ granted (some body)
      → (access refresh : Option Value) → get_field "refresh_token" body ≡ refresh
      → IsRunEnd (from_tokens a access refresh file)
  unfolding from_tokens
  tokens-cases body g none refresh e = inl (inr refl)
  tokens-cases body g (some access) none e = inl (inr refl)
  tokens-cases body g (some access) (some token) e =
      elim (Bool-cases (truthy access && truthy token)) [
        | inr blank ↦ rw (from_tokens, blank) (inl (inl refl))
        | inl both ↦
            let there : truthy token ≡ true = ground arith in
            rw (from_tokens, both)
              (elim (thermostats-cases a token file a.thermostats refl) [
                | inl failed ↦ inl failed
                | inr (xs, listed, chosen) ↦ inr (token, body, xs, g, e, there, listed, chosen)
              ])
      ]

  poll-cases : (o : Outcome) → a.token ≡ o → IsRunEnd (from_poll a o file)
  unfolding from_poll
  poll-cases http_error e = inl (inl refl)
  poll-cases timed_out e = inl (inl refl)
  poll-cases crashed e = inl (inr refl)
  poll-cases unfinished e = inl (inr refl)
  poll-cases (granted none) e = inl (inr refl)
  poll-cases (granted (some body)) e =
      tokens-cases body e (get_field "access_token" body) (get_field "refresh_token" body) refl

  pin-cases : (pin code : Option Value) → IsRunEnd (from_pin a pin code file)
  unfolding from_pin
  pin-cases none code = inl (inr refl)
  pin-cases (some pin) none = inl (inr refl)
  pin-cases (some pin) (some code) = elim (Bool-cases (truthy pin && truthy code)) [
    | inl both ↦ rw (from_pin, both) (poll-cases a.token refl)
    | inr blank ↦ rw (from_pin, blank) (inl (inl refl))
  ]

  answer-cases : (answer : Answer Value) → IsRunEnd (from_answer a answer file)
  unfolding from_answer
  answer-cases named = inl (inl refl)
  answer-cases unnamed = inl (inr refl)
  answer-cases (returns v) = pin-cases (get_field "ecobeePin" v) (get_field "code" v)

  -- Every run ends with status 2 or an exception and the state file as it was; or with status 0 and
  -- a state file that holds the refresh token of the response to the poll and the identifier of a
  -- thermostat that the service listed, neither of them empty.
  pub main-cases : IsFailed file (main a file) ⊎ IsSetUp a (main a file)
  unfolding main
  main-cases = elim (Bool-cases (str_eq a.api_key "")) [
    | inl blank ↦ rw (main, blank) (inl (inl refl))
    | inr given ↦ rw (main, given) (answer-cases a.pin)
  ]
