-- ===== src/Retry/Bounds.antt =====
-- Bounds, monotonicity and exact values of the retry calculations of src/workers/retry.rs.
use telegraph_center.Base.{ℕ, zero, suc, ◌*◌, ◌≤◌, ◌≡◌, Option, some, arith}
use telegraph_center.Base.Int.{ℤ, pos}
use telegraph_center.Retry.{backoff, transcription_window, minutes, hours, milliseconds}

-- The backoff is monotone in the attempt number: a later attempt never waits less.
pub backoff_mono : (m n : ℕ) → m ≤ n → backoff (pos m) ≤ backoff (pos n)
unfolding backoff
backoff_mono m n h = ground arith

-- For every attempt number, the backoff lies between one minute and six hours.
pub backoff_bounds : (n : ℤ) → (minutes 1 ≤ backoff n) × (backoff n ≤ hours 6)
unfolding backoff
backoff_bounds n = ground arith

-- For every audio duration, missing, negative or huge, the retry window is at least 2 hours and at
-- most 24.
pub transcription_window_bounds :
    (d : Option ℤ) → (hours 2 ≤ transcription_window d) × (transcription_window d ≤ hours 24)
unfolding transcription_window
transcription_window_bounds d = ground arith

-- For audio of at least one and at most twelve hours the retry window is exactly twice its
-- duration.
pub transcription_window_exact :
    (ms : ℕ)
    → 3_600_000 ≤ ms
    → ms ≤ 43_200_000
    → transcription_window (some (pos ms)) ≡ milliseconds (ms * 2)
unfolding transcription_window
transcription_window_exact zero lo hi = omega arith
transcription_window_exact (suc n) lo hi = omega arith
