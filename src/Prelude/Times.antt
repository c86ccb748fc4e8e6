-- ===== src/Prelude/Times.antt =====
-- time.Time as nanoseconds since the zero time (1 January of year 1, UTC), which every valid
-- protobuf timestamp is not before; time.Duration as a signed 64-bit count of nanoseconds.
use Prim.Native.Nat.{ℕ, zero, suc, ◌+◌, ◌-◌, ◌≤◌, ◌<◌, min}
use mathlib.Core.Path.{◌≡◌}
use mathlib.Core.Bool.{Bool, true, false}
use native.Mathlib.Omega.{arith}
use agents_orchestrator.Prelude.Tests.{ltb, leb, if◌then◌else◌}

-- `negsuc n` is -(n + 1).
pub data ℤ : Type 0 where
  pos : ℕ → ℤ
  negsuc : ℕ → ℤ

abbrev pub ltb_ℤ : ℤ → ℤ → Bool
ltb_ℤ (pos a) (pos b) = ltb a b
ltb_ℤ (pos a) (negsuc b) = false
ltb_ℤ (negsuc a) (pos b) = true
ltb_ℤ (negsuc a) (negsuc b) = ltb b a

abbrev pub Time : Type 0
Time = ℕ

abbrev pub Duration : Type 0
Duration = ℤ

abbrev pub max_int64 : ℕ
max_int64 = 9223372036854775807

abbrev pub second : ℕ
second = 1000000000

abbrev pub minute : ℕ
minute = 60000000000

-- t.Sub(u), which saturates.
abbrev pub time_sub : Time → Time → Duration
time_sub t u = if leb u t then pos (min (t - u) max_int64) else negsuc (min (u - t - 1) max_int64)

-- t.After(u)
abbrev pub after : Time → Time → Bool
after t u = ltb u t

-- Below the saturation, a comparison of `now.Sub(t)` with a duration is one of times.
pub time_sub-lt : (now t d : ℕ) → d < max_int64 → ltb_ℤ (pos d) (time_sub now t) ≡ ltb (t + d) now
time_sub-lt now t d h = ground arith

pub time_sub-ge : (now t d : ℕ) → d ≤ max_int64 → ltb_ℤ (time_sub now t) (pos d) ≡ ltb now (t + d)
time_sub-ge now t zero h = ground arith
time_sub-ge now t (suc d) h = ground arith
