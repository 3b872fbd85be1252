-- ===== src/Env/Defs.antt =====
-- forkscan-changed/env.c. An `int` is its pattern of 32 bits, on which the arithmetic wraps around
-- (in C a signed overflow has no meaning of its own) and `>>` repeats the sign. What `getenv` returns
-- and what `atoi` makes of it are parameters.
use pp_final_project.Prelude.{
  ℕ, ◌+◌, ◌-◌, ◌*◌, ◌/◌, ◌%◌, ◌^◌, Bool, ltb, leb, ◌==◌, if◌then◌else◌, Option, none, some, bit_or,
}

abbrev pub two_32 : ℕ
two_32 = 2 ^ 32

abbrev pub sign_bit : ℕ
sign_bit = 2 ^ 31

-- `a < b` of signed numbers
abbrev pub int_lt : ℕ → ℕ → Bool
int_lt a b = ltb ((a + sign_bit) % two_32) ((b + sign_bit) % two_32)

-- `v >> k`
abbrev pub shift_right : ℕ → ℕ → ℕ
shift_right v k = if leb sign_bit v then v / 2 ^ k + (two_32 - 2 ^ (32 - k)) else v / 2 ^ k

abbrev pub default_throttling_queue : ℕ
default_throttling_queue = 16

abbrev pub max_throttling_queue : ℕ
max_throttling_queue = 32

abbrev pub max_children_count : ℕ
max_children_count = 16

abbrev pub max_ptrs_per_thread : ℕ
max_ptrs_per_thread = 1024 * 1024

abbrev pub min_ptrs_per_thread : ℕ
min_ptrs_per_thread = 1024

-- The variables of the environment that are read.
pub data Variable : Type 0 where
  env_ptrs_per_thread : Variable
  env_report_statistics : Variable
  env_throttling_queue : Variable
  env_max_children : Variable

-- The globals that the library reads afterwards.
pub record Parameters : Type 0 where
  pub ptrs_per_thread : ℕ
  pub report_statistics : ℕ
  pub throttling_queue : ℕ
  pub max_children : ℕ

-- `v |= v >> k`
unfoldable pub smear : ℕ → ℕ → ℕ
smear k v = bit_or v (shift_right v k)

-- From `--ptrs_per_thread` to `++ptrs_per_thread`.
unfoldable pub round_up : ℕ → ℕ
round_up p =
    (smear 16 (smear 8 (smear 4 (smear 2 (smear 1 ((p + (two_32 - 1)) % two_32))))) + 1) % two_32

unfoldable pub check_ptrs : ℕ → ℕ
check_ptrs p =
    if int_lt p min_ptrs_per_thread
    then min_ptrs_per_thread
    else if int_lt max_ptrs_per_thread p
    then max_ptrs_per_thread
    else p

-- At least 1, and at most `most`.
unfoldable pub check_count : ℕ → ℕ → ℕ
check_count most v = let v' = if int_lt 0 v then v else 1 in if int_lt most v' then most else v'

module _ {ℓ} {Str : Type ℓ} (atoi : Str → ℕ) where
  unfoldable pub get_int : Option Str → ℕ → ℕ
  get_int none default_val = default_val
  get_int (some val) default_val = atoi val

  unfoldable pub env_init : (Variable → Option Str) → Parameters
  env_init getenv = record {
    ptrs_per_thread =
        check_ptrs (round_up (get_int (getenv env_ptrs_per_thread) 32 * 1024 % two_32));
    report_statistics = if get_int (getenv env_report_statistics) 0 == 0 then 0 else 1;
    throttling_queue =
        check_count max_throttling_queue
          (get_int (getenv env_throttling_queue) default_throttling_queue);
    max_children =
        check_count max_children_count (get_int (getenv env_max_children) max_children_count);
  }
