-- ===== src/Container/Volumes.antt =====
-- The part of `_container` that turns `volumes` and `output_dir` into the mounts of `docker run`.
use hadcd_agent.Base.{
  String, ◌≡◌, refl, Bool, true, false, ◌||◌, List, [], ◌∷◌, All, arith, str_eq, if◌then◌else◌,
}
use hadcd_agent.Base.Json.{Value, null, bool, num, str, arr, obj, Fields, truthy, get_or, items}
use hadcd_agent.Container.{Result, returns, value_error, bind, Returns, bind-Returns, Returns-any}

-- A key of `volumes_dict` with its value.
pub record Mount : Type 0 where
  pub host_path : String
  pub container_path : String
  pub mode : String

-- `volumes_dict[m.host_path] = ...`: an earlier mount of that path is replaced in place.
unfoldable pub put : Mount → List Mount → List Mount
put m [] = m ∷ []
put m (k ∷ ks) = elim (str_eq k.host_path m.host_path) [ true ↦ m ∷ ks | false ↦ k ∷ put m ks ]

-- A string that is not empty.
unfoldable pub path_of : Value → Result String
path_of (str s) = if str_eq s "" then value_error else returns s
path_of null = value_error
path_of (bool b) = value_error
path_of (num d) = value_error
path_of (arr xs) = value_error
path_of (obj fs) = value_error

unfoldable pub mode_of : Value → Result String
mode_of (str s) = if str_eq s "ro" || str_eq s "rw" then returns s else value_error
mode_of null = value_error
mode_of (bool b) = value_error
mode_of (num d) = value_error
mode_of (arr xs) = value_error
mode_of (obj fs) = value_error

-- `args.get("volumes") or []`, which is to be a list.
unfoldable pub volume_list : Value → Result (List Value)
volume_list (arr xs) = returns (items xs)
volume_list null = returns []
volume_list (bool b) = if b then value_error else returns []
volume_list (num d) = if truthy (num d) then value_error else returns []
volume_list (str s) = if truthy (str s) then value_error else returns []
volume_list (obj fs) = if truthy (obj fs) then value_error else returns []

-- `allowed` is `_check_mount_allowed` on a string.
module _ (allowed : String → Bool) where
  unfoldable pub permit : String → Result Unit
  permit path = if allowed path then returns tt else value_error

  fields_mount : Fields → Result Mount
  unfolding path_of mode_of permit
  fields_mount fs = bind (path_of (get_or "host_path" null fs)) (λ host_path.
      bind (path_of (get_or "container_path" null fs)) (λ container_path.
        bind (mode_of (get_or "mode" (str "ro") fs)) (λ mode. bind (permit host_path) (λ u.
          returns
            (record { host_path = host_path; container_path = container_path; mode = mode })))))

  unfoldable pub volume_mount : Value → Result Mount
  unfolding fields_mount
  volume_mount (obj fs) = fields_mount fs
  volume_mount null = value_error
  volume_mount (bool b) = value_error
  volume_mount (num d) = value_error
  volume_mount (str s) = value_error
  volume_mount (arr xs) = value_error

  unfoldable pub add_volumes : List Value → List Mount → Result (List Mount)
  unfolding volume_mount put
  add_volumes [] mounts = returns mounts
  add_volumes (v ∷ vs) mounts = bind (volume_mount v) (λ m. add_volumes vs (put m mounts))

  unfoldable pub add_output : Value → List Mount → Result (List Mount)
  unfolding permit put
  add_output null mounts = returns mounts
  add_output (str s) mounts = bind (permit s) (λ u.
      returns (put (record { host_path = s; container_path = "/output"; mode = "rw" }) mounts))
  add_output (bool b) mounts = value_error
  add_output (num d) mounts = value_error
  add_output (arr xs) mounts = value_error
  add_output (obj fs) mounts = value_error

  unfoldable pub build_mounts : Value → Value → Result (List Mount)
  unfolding volume_list add_volumes add_output
  build_mounts volumes output_dir =
      bind (volume_list volumes)
        (λ vs. bind (add_volumes vs []) (λ mounts. add_output output_dir mounts))

  -- A mount of an allowed path that is read-only or writable.
  abbrev pub IsPermitted : Mount → Type 0
  IsPermitted m = (allowed m.host_path ≡ true) × ((str_eq m.mode "ro" || str_eq m.mode "rw") ≡ true)

  permit-allowed : (path : String) → Returns (λ u. allowed path ≡ true) (permit path)
  unfolding permit
  permit-allowed path = ground arith

  mode-known : (v : Value) → Returns (λ m. (str_eq m "ro" || str_eq m "rw") ≡ true) (mode_of v)
  unfolding mode_of
  mode-known (str s) = ground arith
  mode-known null = tt
  mode-known (bool b) = tt
  mode-known (num d) = tt
  mode-known (arr xs) = tt
  mode-known (obj fs) = tt

  fields-IsPermitted : (fs : Fields) → Returns IsPermitted (fields_mount fs)
  unfolding fields_mount
  fields-IsPermitted fs =
      bind-Returns (λ p. Unit) _ (path_of (get_or "host_path" null fs)) _ (Returns-any _)
        (λ host u.
          bind-Returns (λ p. Unit) _ (path_of (get_or "container_path" null fs)) _ (Returns-any _)
            (λ target u'.
              bind-Returns _ _ (mode_of (get_or "mode" (str "ro") fs)) _
                (mode-known (get_or "mode" (str "ro") fs))
                (λ mode known.
                  bind-Returns _ _ (permit host) _ (permit-allowed host) (λ u'' ok. (ok, known)))))

  volume-IsPermitted : (v : Value) → Returns IsPermitted (volume_mount v)
  unfolding volume_mount
  volume-IsPermitted (obj fs) = fields-IsPermitted fs
  volume-IsPermitted null = tt
  volume-IsPermitted (bool b) = tt
  volume-IsPermitted (num d) = tt
  volume-IsPermitted (str s) = tt
  volume-IsPermitted (arr xs) = tt

  put-All : (P : Mount → Type 0) (m : Mount) (ms : List Mount) → P m → All P ms → All P (put m ms)
  unfolding put
  put-All P m [] p ps = (p, tt)
  put-All P m (k ∷ ks) p (q, qs) =
      elim (str_eq k.host_path m.host_path)
        as (λ b. All P (elim b as (λ x. List Mount) [ true ↦ m ∷ ks | false ↦ k ∷ put m ks ])) [
          | true ↦ (p, qs)
          | false ↦ (q, put-All P m ks p qs)
        ]

  add_volumes-IsPermitted :
      (vs : List Value) (mounts : List Mount)
      → All IsPermitted mounts
      → Returns (λ ms. All IsPermitted ms) (add_volumes vs mounts)
  unfolding add_volumes
  add_volumes-IsPermitted [] mounts ok = ok
  add_volumes-IsPermitted (v ∷ vs) mounts ok =
      bind-Returns IsPermitted _ (volume_mount v) _ (volume-IsPermitted v)
        (λ m p. add_volumes-IsPermitted vs (put m mounts) (put-All IsPermitted m mounts p ok))

  add_output-IsPermitted :
      (v : Value) (mounts : List Mount)
      → All IsPermitted mounts
      → Returns (λ ms. All IsPermitted ms) (add_output v mounts)
  unfolding add_output
  add_output-IsPermitted null mounts ok = ok
  add_output-IsPermitted (str s) mounts ok =
      bind-Returns _ _ (permit s) _ (permit-allowed s)
        (λ u p. put-All IsPermitted _ mounts (p, refl) ok)
  add_output-IsPermitted (bool b) mounts ok = tt
  add_output-IsPermitted (num d) mounts ok = tt
  add_output-IsPermitted (arr xs) mounts ok = tt
  add_output-IsPermitted (obj fs) mounts ok = tt

  -- Whatever a task's payload holds under `volumes` and `output_dir`: if the handler gets as far as
  -- the run, each mount it passes on has a host path that the local policy allows, and is read-only
  -- or writable.
  pub build_mounts-IsPermitted :
      (volumes output_dir : Value)
      → Returns (λ ms. All IsPermitted ms) (build_mounts volumes output_dir)
  unfolding build_mounts
  build_mounts-IsPermitted volumes output_dir =
      bind-Returns (λ vs. Unit) _ (volume_list volumes) _ (Returns-any _)
        (λ vs u.
          bind-Returns _ _ (add_volumes vs []) _ (add_volumes-IsPermitted vs [] tt)
            (λ mounts ok. add_output-IsPermitted output_dir mounts ok))
