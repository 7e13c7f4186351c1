-- ===== src/Workloads/Mining/Process.antt =====
-- That a miner's process does not outlive its handler.
use hadcd_agent.Base.{
  ℕ, ◌≡◌, refl, inl, inr, Bool, true, false, not, ◌&&◌, List, [], ◌∷◌, ◌++◌, Bool-cases,
  Option-cases, ltb,
}
use hadcd_agent.Workloads.Mining.{
  Pass, Pause, no_pause, Effect, starts, suspends, resumes, terminates, kills, has_pressure,
  yield_gpu, gpu_loop, cpu_loop, stop_process, Settings, skip_reason, run_gpu_mining_fill,
  run_p2pool_fill,
}

-- Whether the process is there after the effects, if it obeys a request to end or not.
abbrev pub is_running : Bool → Bool → List Effect → Bool
is_running obeys b [] = b
is_running obeys b (starts ∷ es) = is_running obeys true es
is_running obeys b (suspends ∷ es) = is_running obeys b es
is_running obeys b (resumes ∷ es) = is_running obeys b es
is_running obeys b (terminates ∷ es) = is_running obeys (b && not obeys) es
is_running obeys b (kills ∷ es) = is_running obeys false es

-- Effects that neither start nor end the process.
abbrev IsQuiet : List Effect → Type 0
IsQuiet [] = Unit
IsQuiet (starts ∷ es) = ⊥
IsQuiet (suspends ∷ es) = IsQuiet es
IsQuiet (resumes ∷ es) = IsQuiet es
IsQuiet (terminates ∷ es) = ⊥
IsQuiet (kills ∷ es) = ⊥

IsQuiet-append : (xs ys : List Effect) → IsQuiet xs → IsQuiet ys → IsQuiet (xs ++ ys)
IsQuiet-append [] ys q r = r
IsQuiet-append (starts ∷ xs) ys q r = q
IsQuiet-append (suspends ∷ xs) ys q r = IsQuiet-append xs ys q r
IsQuiet-append (resumes ∷ xs) ys q r = IsQuiet-append xs ys q r
IsQuiet-append (terminates ∷ xs) ys q r = q
IsQuiet-append (kills ∷ xs) ys q r = q

running-quiet :
    (obeys b : Bool) (xs ys : List Effect)
    → IsQuiet xs
    → is_running obeys b (xs ++ ys) ≡ is_running obeys b ys
running-quiet obeys b [] ys q = refl
running-quiet obeys b (starts ∷ xs) ys q = elim q [ ]
running-quiet obeys b (suspends ∷ xs) ys q = running-quiet obeys b xs ys q
running-quiet obeys b (resumes ∷ xs) ys q = running-quiet obeys b xs ys q
running-quiet obeys b (terminates ∷ xs) ys q = elim q [ ]
running-quiet obeys b (kills ∷ xs) ys q = elim q [ ]

yield-IsQuiet : (pressure : Bool) (now : ℕ) (s : Pause) → IsQuiet (yield_gpu pressure now s).1
unfolding yield_gpu
yield-IsQuiet pressure now s = elim (Bool-cases (pressure && not s.paused)) [
  | inl a ↦ rw (yield_gpu, a) tt
  | inr a ↦ elim (Bool-cases (not pressure && s.paused)) [
    | inl b ↦ rw (yield_gpu, a, b) tt
    | inr b ↦ rw (yield_gpu, a, b) tt
  ]
]

gpu-IsQuiet :
    (own deadline : ℕ) (ps : List Pass) (s : Pause) → IsQuiet (gpu_loop own deadline ps s).effects
unfolding gpu_loop
gpu-IsQuiet own deadline [] s = tt
gpu-IsQuiet own deadline (p ∷ ps) s =
    let y = yield_gpu (has_pressure own p) p.woke_at s in
    let q = yield-IsQuiet (has_pressure own p) p.woke_at s in
    elim (Bool-cases (not (ltb p.checked deadline))) [
      | inl late ↦ rw (gpu_loop, late) tt
      | inr early ↦ elim (Bool-cases (ltb deadline p.sleeps_at)) [
        | inl past ↦ rw (gpu_loop, early, past) tt
        | inr in_time ↦ elim (Bool-cases p.has_exited) [
          | inl gone ↦ rw (gpu_loop, early, in_time, gone) q
          | inr lives ↦
              rw (gpu_loop, early, in_time, lives)
                (IsQuiet-append y.1 (gpu_loop own deadline ps y.0).effects q
                  (gpu-IsQuiet own deadline ps y.0))
        ]
      ]
    ]

cpu-IsQuiet : (deadline : ℕ) (ps : List Pass) → IsQuiet (cpu_loop deadline ps).effects
unfolding cpu_loop
cpu-IsQuiet deadline [] = tt
cpu-IsQuiet deadline (p ∷ ps) = elim (Bool-cases (not (ltb p.checked deadline))) [
  | inl late ↦ rw (cpu_loop, late) tt
  | inr early ↦ elim (Bool-cases (ltb deadline p.sleeps_at)) [
    | inl past ↦ rw (cpu_loop, early, past) tt
    | inr in_time ↦ elim (Bool-cases p.has_exited) [
      | inl gone ↦ rw (cpu_loop, early, in_time, gone) tt
      | inr lives ↦ rw (cpu_loop, early, in_time, lives) (cpu-IsQuiet deadline ps)
    ]
  ]
]

stop-ends :
    (obeys has_exited : Bool)
    → is_running obeys true (stop_process obeys has_exited) && not has_exited ≡ false
unfolding stop_process
stop-ends true true = refl
stop-ends true false = refl
stop-ends false true = refl
stop-ends false false = refl

-- On every path of either handler, skips and exceptions included, the miner's process, if it was
-- started, has exited, ended when asked to, or been killed.
pub miners_stop :
    (c : Settings) (own deadline : ℕ) (obeys : Bool) (ps : List Pass) (start finish : ℕ)
    → ((is_running obeys false (run_gpu_mining_fill c own deadline obeys ps start finish).0
          && not (gpu_loop own deadline ps no_pause).has_exited)
        ≡ false)
      × ((is_running obeys false (run_p2pool_fill c deadline obeys ps start finish).0
            && not (cpu_loop deadline ps).has_exited)
          ≡ false)
unfolding run_gpu_mining_fill run_p2pool_fill
miners_stop c own deadline obeys ps start finish =
    let g = gpu_loop own deadline ps no_pause in
    let h = cpu_loop deadline ps in
    elim (Option-cases (skip_reason c)) [
      | inr (why, skips) ↦ rw (run_gpu_mining_fill, run_p2pool_fill, skips) (refl, refl)
      | inl runs ↦
          rw
            (
              run_gpu_mining_fill,
              run_p2pool_fill,
              runs,
              running-quiet obeys true g.effects (stop_process obeys g.has_exited)
                  (gpu-IsQuiet own deadline ps no_pause),
              running-quiet obeys true h.effects (stop_process obeys h.has_exited)
                  (cpu-IsQuiet deadline ps),
            )
            (stop-ends obeys g.has_exited, stop-ends obeys h.has_exited)
    ]
