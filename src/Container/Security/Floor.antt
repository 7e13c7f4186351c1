-- ===== src/Container/Security/Floor.antt =====
-- The floor that the node enforces whatever the payload says.
use hadcd_agent.Base.{
  String, ◌≡◌, refl, Bool, true, false, Option, none, some, List, [], ◌∷◌, ◌++◌, arith, str_eq, ap,
  sym, ◌∙◌, ◌⊎◌, inl, inr, Bool-cases, if◌then◌else◌,
}
use hadcd_agent.Base.Json.{Value, null, bool, num, str, arr, obj, Items, nil, cons, items, truthy}
use mathlib.Core.Bool.{true≢false, false≢true}
use hadcd_agent.Container.{
  Result, returns, value_error, execution_error, api_error, Returns, bind-Returns, Returns-any,
}
use hadcd_agent.Container.Security.{
  Args, Kwargs, Host, ensure_network, list_field, either_key, network_field, named_network,
  hardened_default_network, has_no_new_privileges, floor_opts, floor_network, is_hardened, harden,
  build_security_kwargs,
}

-- A network that, where one is named, is not the host's.
abbrev pub IsNotHost : Option String → Type 0
IsNotHost none = Unit
IsNotHost (some n) = (str_eq n "host" ≡ false) × (str_eq n "" ≡ false)

-- What the payload asks for: no network, or one that is not the host's.
abbrev pub IsAsked : Value → Option String → Type 0
IsAsked v none = truthy v ≡ false
IsAsked v (some n) = (v ≡ str n) × IsNotHost (some n)

-- The isolated bridge where the payload names no network, else the one that it names.
abbrev pub IsPlaced : Value → Option String → Type 0
IsPlaced v n =
    ((truthy v ≡ false) × (n ≡ some hardened_default_network))
    ⊎ ((s : String) × (v ≡ str s) × (n ≡ some s) × IsNotHost (some s))

abbrev pub given_opts : Option (List Value) → List Value
given_opts none = []
given_opts (some opts) = opts

-- The payload's options with "no-new-privileges:true" behind them; or as they are, where they hold an
-- option that begins "no-new-privileges".
abbrev pub IsRaised : Host → Value → Option (List Value) → Type 0
IsRaised h v o =
    (given : Option (List Value)) × (list_field v ≡ returns given)
    × ((o ≡ some (given_opts given ++ (str "no-new-privileges:true" ∷ [])))
        ⊎ ((has_no_new_privileges h (given_opts given) ≡ true) × (o ≡ some (given_opts given))))

-- Unprivileged, no capability, with such options and such a network.
abbrev pub IsFloored : Host → Args → Kwargs → Type 0
IsFloored h args k =
    (k.privileged ≡ some false)
    × (k.cap_drop ≡ some (str "ALL" ∷ []))
    × IsRaised h (either_key args.security_opts args.security_opt) k.security_opt
    × IsPlaced args.network_mode k.network

-- Never the host's network; the floor for a hardened task.
abbrev pub IsConfined : Host → Args → Kwargs → Type 0
IsConfined h args k = IsNotHost k.network × (is_hardened h args ≡ true → IsFloored h args k)

named-IsAsked : (h : Host) (s : String) → Returns (IsAsked (str s)) (named_network h s)
unfolding named_network truthy
named-IsAsked h s = ground arith

network-IsAsked : (h : Host) (v : Value) → Returns (IsAsked v) (network_field h v)
unfolding network_field truthy
network-IsAsked h (str s) = named-IsAsked h s
network-IsAsked h null = refl
network-IsAsked h (bool b) = ground arith
network-IsAsked h (num d) = ground arith
network-IsAsked h (arr xs) = ground arith
network-IsAsked h (obj fs) = ground arith

asked-IsNotHost : (v : Value) (n : Option String) → IsAsked v n → IsNotHost n
asked-IsNotHost v none a = tt
asked-IsNotHost v (some n) (e, ok) = ok

placed-IsNotHost : (v : Value) (n : Option String) → IsPlaced v n → IsNotHost n
placed-IsNotHost v n (inl (unset, e)) = rw e (refl, refl)
placed-IsNotHost v n (inr (s, asked, e, ok)) = rw e ok

floor_opts-IsRaised :
    (h : Host) (v : Value) (o : Option (List Value))
    → list_field v ≡ returns o
    → IsRaised h v (some (floor_opts h o))
unfolding floor_opts
floor_opts-IsRaised h v none e = (none, e, inl refl)
floor_opts-IsRaised h v (some opts) e = elim (Bool-cases (has_no_new_privileges h opts)) [
  | inl has ↦ (
    some opts,
    e,
    inr (has, ap (λ b. some (if b then opts else opts ++ (str "no-new-privileges:true" ∷ []))) has),
  )
  | inr lacks ↦ (
    some opts,
    e,
    inl (ap (λ b. some (if b then opts else opts ++ (str "no-new-privileges:true" ∷ []))) lacks),
  )
]

floor_network-IsPlaced :
    (h : Host) (v : Value) (n : Option String)
    → IsAsked v n
    → Returns (IsPlaced v) (floor_network h n)
unfolding floor_network
floor_network-IsPlaced h v (some n) (e, ok) = inr (n, e, refl, ok)
floor_network-IsPlaced h v none unset =
    bind-Returns (λ u. Unit) (IsPlaced v) (ensure_network h hardened_default_network) _
      (Returns-any _) (λ u p. inl (unset, refl))

module _ (h : Host) (args : Args) where
  harden-IsConfined :
      (k : Kwargs)
      → list_field (either_key args.security_opts args.security_opt) ≡ returns k.security_opt
      → IsAsked args.network_mode k.network
      → Returns (IsConfined h args) (harden h k)
  unfolding harden
  harden-IsConfined k opts ok =
      bind-Returns (IsPlaced args.network_mode) _ (floor_network h k.network) _
        (floor_network-IsPlaced h args.network_mode k.network ok)
        (λ n placed. (
          placed-IsNotHost args.network_mode n placed,
          λ hard. (
            refl,
            refl,
            floor_opts-IsRaised h (either_key args.security_opts args.security_opt) k.security_opt
                opts,
            placed,
          ),
        ))

  branch-IsConfined :
      (k : Kwargs) (b : Bool)
      → is_hardened h args ≡ b
      → list_field (either_key args.security_opts args.security_opt) ≡ returns k.security_opt
      → IsAsked args.network_mode k.network
      → Returns (IsConfined h args) (if b then harden h k else returns k)
  branch-IsConfined k true e opts ok = harden-IsConfined k opts ok
  branch-IsConfined k false e opts ok =
      (asked-IsNotHost args.network_mode k.network ok, λ hard. elim (true≢false (sym hard ∙ e)) [ ])

Returns-same : {A : Type 0} (r : Result A) → Returns (λ a. r ≡ returns a) r
Returns-same (returns a) = refl
Returns-same value_error = tt
Returns-same execution_error = tt
Returns-same api_error = tt

-- Whatever the profile, the node and the replies of Docker: where the arguments of `docker run` are
-- built, the network is never the host's. For a task that the payload or the node says is hardened
-- they drop all capabilities and are unprivileged; their options are the payload's followed by
-- "no-new-privileges:true", or the payload's alone, but only if these hold one that begins
-- "no-new-privileges", whatever its value; and their network is the isolated bridge, unless the
-- payload names another, which they then take.
pub build_security_kwargs-IsConfined :
    (h : Host) (args : Args) → Returns (IsConfined h args) (build_security_kwargs h args)
unfolding build_security_kwargs
build_security_kwargs-IsConfined h args =
    bind-Returns (λ c. Unit) _ (list_field args.cap_drop) _ (Returns-any _)
      (λ caps p.
        bind-Returns _ _ (list_field (either_key args.security_opts args.security_opt)) _
          (Returns-same (list_field (either_key args.security_opts args.security_opt)))
          (λ opts same.
            bind-Returns (IsAsked args.network_mode) _ (network_field h args.network_mode) _
              (network-IsAsked h args.network_mode)
              (λ net ok. branch-IsConfined h args _ (is_hardened h args) refl same ok)))

floor_opts-same :
    (h : Host) (opts : List Value)
    → has_no_new_privileges h opts ≡ true
    → floor_opts h (some opts) ≡ opts
unfolding floor_opts
floor_opts-same h opts has =
    ap (λ b. if b then opts else opts ++ (str "no-new-privileges:true" ∷ [])) has

harden-keeps :
    (h : Host) (k : Kwargs) (opts : List Value)
    → k.security_opt ≡ some opts
    → has_no_new_privileges h opts ≡ true
    → Returns (λ k'. k'.security_opt ≡ some opts) (harden h k)
unfolding harden
harden-keeps h k opts e has =
    bind-Returns (λ n. Unit) _ (floor_network h k.network) _ (Returns-any _)
      (λ n p. rw (e, floor_opts-same h opts has) refl)

no-option : (h : Host) → has_no_new_privileges h [] ≡ true → false ≡ true
unfolding has_no_new_privileges
no-option h has = has

given_list :
    (x : Value) (xs : Items) (b : Value)
    → list_field (either_key (arr (cons x xs)) b) ≡ returns (some (items (cons x xs)))
unfolding list_field either_key truthy
given_list x xs b = refl

-- A list of options that holds one beginning "no-new-privileges" reaches Docker unchanged, also for
-- a hardened task: an option "no-new-privileges:false" in it takes the place of the floor's.
payload_opts_kept :
    (h : Host) (args : Args) (xs : Items)
    → is_hardened h args ≡ true
    → args.security_opts ≡ arr xs
    → has_no_new_privileges h (items xs) ≡ true
    → Returns (λ k. k.security_opt ≡ some (items xs)) (build_security_kwargs h args)
unfolding build_security_kwargs
payload_opts_kept h args nil hard e has = elim (false≢true (no-option h has)) [ ]
payload_opts_kept h args (cons x xs) hard e has =
    rw (e, hard, given_list x xs args.security_opt)
      (bind-Returns (λ c. Unit) _ (list_field args.cap_drop) _ (Returns-any _)
        (λ caps p.
          bind-Returns (λ n. Unit) _ (network_field h args.network_mode) _ (Returns-any _)
            (λ net p'.
              harden-keeps h
                (record {
                  privileged = none;
                  cap_drop = caps;
                  security_opt = some (items (cons x xs));
                  network = net;
                })
                (items (cons x xs)) refl has)))
