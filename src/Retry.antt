-- ===== src/Retry.antt =====
-- src/workers/retry.rs: backoff, retry windows and deadlines. Instants and durations are counted in
-- nanoseconds, the resolution of the `time` crate; an instant counts from the earliest one that the
-- crate represents.
pub mod Bounds
use telegraph_center.Base.{ℕ, zero, suc, ◌+◌, ◌-◌, ◌*◌, ◌^◌, min, max, Option, none, some}
use telegraph_center.Base.Int.{ℤ, pos, negsuc}

abbrev pub Time : Type 0
Time = ℕ

abbrev pub Duration : Type 0
Duration = ℕ

-- `Duration::milliseconds`, `minutes` and `hours`
abbrev pub milliseconds : ℕ → Duration
milliseconds n = n * 1_000_000

abbrev pub minutes : ℕ → Duration
minutes n = n * 60_000_000_000

abbrev pub hours : ℕ → Duration
hours n = n * 3_600_000_000_000

abbrev pub i64_max : ℕ
i64_max = 2 ^ 63 - 1

-- `..=1` covers zero and the negative numbers.
unfoldable pub backoff : ℤ → Duration
backoff (negsuc n) = minutes 1
backoff (pos zero) = minutes 1
backoff (pos (suc zero)) = minutes 1
backoff (pos (suc (suc zero))) = minutes 5
backoff (pos (suc (suc (suc zero)))) = minutes 15
backoff (pos (suc (suc (suc (suc zero))))) = hours 1
backoff (pos (suc (suc (suc (suc (suc n)))))) = hours 6

unfoldable pub next_retry_at : Time → ℤ → Time
unfolding backoff
next_retry_at last_attempt_finished_at attempt_number =
    last_attempt_finished_at + backoff attempt_number

-- `ms.saturating_mul(2)` on a positive i64
unfoldable pub saturating_double : ℕ → ℕ
saturating_double ms = min (ms * 2) i64_max

-- the `match` on the duration, before the cap
unfoldable pub uncapped_window : Option ℤ → Duration
unfolding saturating_double
uncapped_window (some (pos (suc n))) = max (hours 2) (milliseconds (saturating_double (suc n)))
uncapped_window _ = hours 2

unfoldable pub transcription_window : Option ℤ → Duration
unfolding uncapped_window
transcription_window audio_duration_ms = min (uncapped_window audio_duration_ms) (hours 24)

unfoldable pub transcription_deadline : Time → Option ℤ → Time
unfolding transcription_window
transcription_deadline first_attempt_started_at audio_duration_ms =
    first_attempt_started_at + transcription_window audio_duration_ms

abbrev pub delivery_window : Duration
delivery_window = hours 24
