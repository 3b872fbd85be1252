-- ===== src/Env/Tests.antt =====
-- The parameters of forkscan-changed/env.c for settings that a user may choose.
use pp_final_project.Prelude.{
  ℕ, ◌-◌, ◌*◌, ◌%◌, ◌^◌, ◌≤◌, ◌<◌, ◌≡◌, ◌⊎◌, refl, Option, none, some, arith,
}
use pp_final_project.Env.Defs.{
  two_32, Variable, env_ptrs_per_thread, env_report_statistics, env_throttling_queue,
  env_max_children, Parameters, smear, round_up, check_ptrs, check_count, get_int, env_init,
}
use pp_final_project.Env.Bounds.{Capacity, env_init-Bounds}
use pp_final_project.Env.Settings.{IsNextPower, check-round_up_lem}

-- Here a setting is the number itself, and `atoi` cuts it to 32 bits.
abbrev settings : Variable → Option ℕ
settings env_ptrs_per_thread = some 33
settings env_report_statistics = none
settings env_throttling_queue = some (two_32 - 5)
settings env_max_children = some 40

abbrev atoi : ℕ → ℕ
atoi n = n % two_32

abbrev params : Parameters
params = env_init atoi settings

params_value : params ≡ record {
  ptrs_per_thread = 65536;
  report_statistics = 0;
  throttling_queue = 1;
  max_children = 16;
}
unfolding env_init check_ptrs round_up smear get_int check_count
params_value = refl

env_init-Bounds_example :
    Capacity params.ptrs_per_thread
    × (params.report_statistics ≤ 1)
    × (1 ≤ params.throttling_queue)
    × (params.throttling_queue ≤ 32)
    × (1 ≤ params.max_children)
    × (params.max_children ≤ 16)
env_init-Bounds_example = env_init-Bounds atoi (λ s. omega arith) settings

check-round_up_lem_example :
    (33 ≤ 1024) × IsNextPower (1024 * 33) (check_ptrs (round_up (1024 * 33)))
    ⊎ (1024 < 33) × (33 ≤ 2 ^ 20) × (check_ptrs (round_up (1024 * 33)) ≡ 2 ^ 20)
    ⊎ (2 ^ 20 < 33) × (check_ptrs (round_up (1024 * 33)) ≡ 1024)
check-round_up_lem_example = check-round_up_lem 33 (omega arith) (omega arith)

-- A setting above 2 ^ 20 gets the minimum.
too_large : check_ptrs (round_up (1024 * 1048577)) ≡ 1024
unfolding check_ptrs round_up smear
too_large = refl
