-- ===== src/Common.antt =====
-- The names that the modules share: the libraries', passed on, those of Common/Tests and
-- Common/Lists, and the integer results of the driver's functions.
mod Tests
mod Lists
pub use Tests.*
pub use Lists.*
pub use Prim.Native.Nat.{ℕ, zero, suc, ◌+◌, ◌-◌, ◌*◌, ◌/◌, ◌%◌, ◌^◌, ◌≤◌, ◌<◌, min, max}
pub use mathlib.Core.Path.{◌≡◌, refl, sym, ap, subst, ◌∙◌}
pub use mathlib.Core.Logic.{◌≢◌, ◌↔◌, ◌⊎◌, inl, inr}
pub use mathlib.Core.Bool.{Bool, true, false, not, ◌&&◌, ◌||◌}
pub use mathlib.Core.Option.{Option, none, some}
pub use mathlib.Core.List.{List, [], ◌∷◌, ◌++◌, map}
pub use native.Mathlib.Omega.{arith}

-- The error numbers that the modelled functions return, negated, as an int.
pub data Errno : Type 0 where
  eperm enxio eagain eacces efault ebusy exdev enodev einval enotty enomem eoverflow : Errno
  ealready estale euclean eopnotsupp enoioctlcmd eio etimedout eintr : Errno

-- An int result: `none` is 0, `some e` is -e.
abbrev pub Ret : Type 0
Ret = Option Errno

-- What a call that waits in rounds does in the rounds that are given: `waiting` where they are over
-- and the call is not.
pub data Outcome : Type 0 where
  waiting : Outcome
  returned : Ret → Outcome

-- A value or a negated error number, as ERR_PTR carries it.
pub data Result {ℓ} (A : Type ℓ) : Type ℓ where
  ok : A → Result A
  err : Errno → Result A

abbrev pub is_zero_ret : Ret → Bool
is_zero_ret none = true
is_zero_ret (some _) = false

-- U32_MAX, and `++` on a u32.
abbrev pub u32_max : ℕ
u32_max = 4294967295

-- INT_MAX.
abbrev pub int_max : ℕ
int_max = 2147483647

abbrev pub u32 : ℕ → ℕ
u32 n = n % 4294967296

abbrev pub u64 : ℕ → ℕ
u64 n = n % 18446744073709551616

pub Result-cases {ℓ} :
    {A : Type ℓ} (r : Result A) → ((e : Errno) × (r ≡ err e)) ⊎ ((a : A) × (r ≡ ok a))
Result-cases (err e) = inl (e, refl)
Result-cases (ok a) = inr (a, refl)
