-- ===== src/Reconciler/Metering/Amounts.antt =====
-- The amounts of metering_sample.go: microFlavorSeconds, microGBSeconds and
-- microGBSecondsFromSize. A duration is a number of nanoseconds.
use agents_orchestrator.Prelude.{
  ℕ, zero, suc, ◌-◌, ◌*◌, ◌/◌, String, Bool, true, false, none, some, ℤ, pos, negsuc, Duration, leb,
  not, trim_space, max_int64, if◌then◌else◌, ◌==◌,
}
use agents_orchestrator.Errors.{Result, ok, err, fault}
use agents_orchestrator.Platform.{Floats}

abbrev pub micro_unit_value : ℕ
micro_unit_value = 1000000

abbrev pub bytes_per_gb : ℕ
bytes_per_gb = 1073741824

-- `x <= 0`
abbrev pub not_positive : ℤ → Bool
not_positive (pos zero) = true
not_positive (pos (suc n)) = false
not_positive (negsuc n) = true

-- microFlavorSeconds
unfoldable pub micro_flavor_seconds : Duration → Result ℤ
micro_flavor_seconds (pos n) = ok (pos (n / 1000))
micro_flavor_seconds (negsuc n) = err (fault "duration must be positive")

-- The product with a positive number, and big.Int's Div by one, which rounds down.
times : ℤ → ℕ → ℤ
times (pos a) n = pos (a * n)
times (negsuc a) n = negsuc (suc a * n - 1)

divided : ℤ → ℕ → ℤ
divided (pos a) d = pos (a / d)
divided (negsuc a) d = negsuc (a / d)

is_int64 : ℤ → Bool
is_int64 (pos a) = leb a max_int64
is_int64 (negsuc a) = leb a max_int64

int64_or_overflow : ℤ → Result ℤ
unfolding is_int64
int64_or_overflow v = if is_int64 v then ok v else err (fault "gb seconds overflow")

-- microGBSeconds. Its denominator is a constant above 0.
unfoldable pub micro_gb_seconds : ℤ → Duration → Result ℤ
unfolding times divided int64_or_overflow
micro_gb_seconds bytes (negsuc n) = err (fault "duration must be positive")
micro_gb_seconds bytes (pos zero) = ok (pos 0)
micro_gb_seconds (pos zero) (pos (suc n)) = ok (pos 0)
micro_gb_seconds (pos (suc b)) (pos (suc n)) =
    int64_or_overflow (divided (times (pos (suc b)) (suc n)) (bytes_per_gb * 1000))
micro_gb_seconds (negsuc b) (pos (suc n)) =
    int64_or_overflow (divided (times (negsuc b) (suc n)) (bytes_per_gb * 1000))

module _ (f : Floats) where
  sized : ℕ → Duration → Result ℤ
  sized value duration =
      let zero_f = f.of_integer 0 in
      let seconds = f.of_seconds duration in
      let micro = f.of_integer micro_unit_value in
      if f.less value zero_f
      then err (fault "size_gb must be non-negative")
      else if f.is_zero value
      then ok (pos 0)
      else if not (f.less zero_f seconds)
      then ok (pos 0)
      else if f.less (f.divided_by (f.divided_by (f.of_integer max_int64) seconds) micro) value
      then err (fault "gb seconds overflow")
      else ok (f.rounded (f.times (f.times value seconds) micro))

  -- microGBSecondsFromSize
  unfoldable pub micro_gb_seconds_from_size : String → Duration → Result ℤ
  unfolding sized
  micro_gb_seconds_from_size size_gb duration =
      let trimmed = trim_space size_gb in
      if trimmed == "" then err (fault "size_gb missing") else elim (f.parse trimmed) [
        | none ↦ err (fault "parse size_gb %q: %w")
        | some value ↦ sized value duration
      ]
