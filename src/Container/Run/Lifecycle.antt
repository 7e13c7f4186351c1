-- ===== src/Container/Run/Lifecycle.antt =====
-- What a run of the handler leaves behind, on every path through it.
use hadcd_agent.Base.{
  ℕ, zero, suc, ◌≤◌, ◌≡◌, refl, String, Bool, Option, none, some, List, [], ◌∷◌, All, take, length,
  arith,
}
use hadcd_agent.Base.Int.{ℤ}
use hadcd_agent.Base.Json.{truthy}
use hadcd_agent.Container.{
  Result, returns, value_error, execution_error, api_error, Returns, Returns-any,
}
use hadcd_agent.Container.Security as Security
use hadcd_agent.Container.Security.Floor.{IsConfined, build_security_kwargs-IsConfined}
use hadcd_agent.Container.Volumes.{
  Mount, path_of, build_mounts, IsPermitted, build_mounts-IsPermitted,
}
use hadcd_agent.Container.Run.{
  Args, Docker, Call, ran, waited, killed, read_logs, removed, Output, max_log_bytes, Start,
  started, image_not_found, start_failed, Logs, logs, logs_failed, logs_broken, output_of,
  check_command, check_env, check_timeout, status, collect, supervise, launch, or_fail, need,
  container,
}

-- A result that `take` has cut.
abbrev pub IsBounded : Docker → Output → Type 0
IsBounded d o =
    (length o.stdout ≤ max_log_bytes)
    × (length o.stderr ≤ max_log_bytes)
    × ((c : Option ℤ) × (d.wait ≡ some c) × (o.exit_code ≡ status c))

-- The calls of one run, with its result. A container that was started is removed last, and killed
-- before exactly if the wait failed; a result is returned only after a wait that succeeded.
pub data IsLifecycle (d : Docker) : Result Output × List Call → Type 0 where
  refused : (r : Result Output) → Returns (λ o. ⊥) r → IsLifecycle d (r, [])
  not_started :
      (k : Security.Kwargs) (ms : List Mount) (gpu : Bool)
      → IsLifecycle d (execution_error, ran k ms gpu ∷ [])
  stopped :
      (k : Security.Kwargs) (ms : List Mount) (gpu : Bool)
      → d.wait ≡ none
      → IsLifecycle d (execution_error, ran k ms gpu ∷ waited ∷ killed ∷ removed ∷ [])
  finished :
      (k : Security.Kwargs) (ms : List Mount) (gpu : Bool) (r : Result Output)
      → Returns (IsBounded d) r
      → IsLifecycle d (r, ran k ms gpu ∷ waited ∷ read_logs ∷ removed ∷ [])

length-take-le : (n : ℕ) (xs : List ℕ) → length (take n xs) ≤ n
length-take-le zero xs = omega arith
length-take-le (suc n) [] = omega arith
length-take-le (suc n) (x ∷ xs) = omega (arith, length-take-le n xs)

module _ (d : Docker) (args : Args) (image : String) where
  collect-IsBounded :
      (c : Option ℤ) (l : Logs)
      → d.wait ≡ some c
      → Returns (IsBounded d) (collect d args image (status c) l)
  unfolding collect output_of
  collect-IsBounded c (logs out err) e =
      (length-take-le max_log_bytes out, length-take-le max_log_bytes err, (c, e, refl))
  collect-IsBounded c logs_failed e =
      (length-take-le max_log_bytes [], length-take-le max_log_bytes [], (c, e, refl))
  collect-IsBounded c logs_broken e = tt

  supervised :
      (w : Option (Option ℤ)) (k : Security.Kwargs) (ms : List Mount) (gpu : Bool)
      → d.wait ≡ w
      → IsLifecycle d ((supervise d args image w).0, ran k ms gpu ∷ (supervise d args image w).1)
  unfolding supervise
  supervised none k ms gpu e = stopped k ms gpu e
  supervised (some c) k ms gpu e =
      finished k ms gpu (collect d args image (status c) d.logs_of)
        (collect-IsBounded c d.logs_of e)

  launch-IsLifecycle :
      (s : Start) (k : Security.Kwargs) (ms : List Mount) (gpu : Bool)
      → IsLifecycle d (launch d args image s (ran k ms gpu))
  unfolding launch
  launch-IsLifecycle started k ms gpu = supervised d.wait k ms gpu refl
  launch-IsLifecycle image_not_found k ms gpu = not_started k ms gpu
  launch-IsLifecycle start_failed k ms gpu = not_started k ms gpu

-- A run call of a task that is confined, with permitted mounts; the other calls ask for nothing.
abbrev pub IsSafeCall : Docker → Args → Call → Type 0
IsSafeCall d args (ran k ms gpu) =
    IsConfined d.security args.profile k × All (IsPermitted d.allowed) ms
IsSafeCall d args waited = Unit
IsSafeCall d args killed = Unit
IsSafeCall d args read_logs = Unit
IsSafeCall d args removed = Unit

-- What holds of the runs that a helper's value leads to holds of the handler.
or_fail-holds :
    {A : Type 0} (d : Docker) (P : Result Output × List Call → Type 0) (Q : A → Type 0)
    (r : Result A) (k : A → Result Output × List Call)
    → ((e : Result Output) → Returns (λ o. ⊥) e → P (e, []))
    → Returns Q r
    → ((a : A) → Q a → P (k a))
    → P (or_fail r k)
unfolding or_fail
or_fail-holds d P Q (returns a) k fails q go = go a q
or_fail-holds d P Q value_error k fails q go = fails value_error tt
or_fail-holds d P Q execution_error k fails q go = fails execution_error tt
or_fail-holds d P Q api_error k fails q go = fails api_error tt

supervise-All :
    (d : Docker) (args : Args) (image : String) (w : Option (Option ℤ))
    → All (IsSafeCall d args) (supervise d args image w).1
unfolding supervise
supervise-All d args image none = (tt, (tt, (tt, tt)))
supervise-All d args image (some c) = (tt, (tt, (tt, tt)))

launch-All :
    (d : Docker) (args : Args) (image : String) (s : Start) (call : Call)
    → IsSafeCall d args call
    → All (IsSafeCall d args) (launch d args image s call).1
unfolding launch
launch-All d args image started call safe = (safe, supervise-All d args image d.wait)
launch-All d args image image_not_found call safe = (safe, tt)
launch-All d args image start_failed call safe = (safe, tt)

abbrev pub IsCareful : Docker → Args → Result Output × List Call → Type 0
IsCareful d args run = IsLifecycle d run × All (IsSafeCall d args) run.1

-- Whatever the task's arguments, the host and the replies of Docker: the handler's calls are those
-- of one lifecycle. No container is run for refused arguments; one that was started is removed
-- last, and is killed before exactly if the wait failed; a result comes only after a wait that
-- succeeded, with its status and with logs within the limit. The container runs with permitted
-- mounts, never on the host's network, and, for a hardened task, unprivileged, without capabilities,
-- with "no-new-privileges:true" unless the payload's options hold one that begins so, and on the
-- isolated bridge unless the payload names another network.
pub container-IsCareful : (d : Docker) (args : Args) → IsCareful d args (container d args)
unfolding container
container-IsCareful d args =
    let P = IsCareful d args in
    let fails : (e : Result Output) → Returns (λ o. ⊥) e → P (e, []) = λ e no. (refused e no, tt) in
    or_fail-holds d P (λ u. Unit) (need d.sdk) _ fails (Returns-any _)
      (λ _ _.
        or_fail-holds d P (λ u. Unit) (path_of args.image) _ fails (Returns-any _)
          (λ image _.
            or_fail-holds d P (λ u. Unit) (check_command args.command) _ fails (Returns-any _)
              (λ _ _.
                or_fail-holds d P (λ u. Unit) (check_env args.env) _ fails (Returns-any _)
                  (λ _ _.
                    or_fail-holds d P (λ u. Unit) (check_timeout d args.timeout_sec) _ fails
                      (Returns-any _)
                      (λ _ _.
                        or_fail-holds d P (λ ms. All (IsPermitted d.allowed) ms)
                          (build_mounts d.allowed args.volumes args.output_dir) _ fails
                          (build_mounts-IsPermitted d.allowed args.volumes args.output_dir)
                          (λ ms permitted.
                            or_fail-holds d P (λ u. Unit) (need d.connects) _ fails (Returns-any _)
                              (λ _ _.
                                or_fail-holds d P (IsConfined d.security args.profile)
                                  (Security.build_security_kwargs d.security args.profile) _ fails
                                  (build_security_kwargs-IsConfined d.security args.profile)
                                  (λ k confined. (
                                    launch-IsLifecycle d args image d.start k ms
                                        (truthy args.gpu_request),
                                    launch-All d args image d.start _ (confined, permitted),
                                  )))))))))
