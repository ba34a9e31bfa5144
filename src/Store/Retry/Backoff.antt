-- ===== src/Store/Retry/Backoff.antt =====
-- The delays of the retries.
use h_go.Base.{ℕ, zero, suc, ◌+◌, ◌*◌, ◌^◌, ◌<◌, ◌≡◌, refl, arith, pos, to_int64, add_duration}
use h_go.Store.Retry.{backoff_exponent, retry_time}

-- The factor by which the base delay has grown at a retry.
abbrev pub factor : ℕ → ℕ
factor zero = 1
factor (suc zero) = 1
factor (suc (suc zero)) = 2
factor (suc (suc (suc zero))) = 4
factor (suc (suc (suc (suc zero)))) = 8
factor (suc (suc (suc (suc (suc zero))))) = 16
factor (suc (suc (suc (suc (suc (suc zero)))))) = 32
factor (suc (suc (suc (suc (suc (suc (suc n))))))) = 64

factor-power : (n : ℕ) → 2 ^ backoff_exponent n ≡ factor n
factor-power zero = refl
factor-power (suc zero) = refl
factor-power (suc (suc zero)) = refl
factor-power (suc (suc (suc zero))) = refl
factor-power (suc (suc (suc (suc zero)))) = refl
factor-power (suc (suc (suc (suc (suc zero))))) = refl
factor-power (suc (suc (suc (suc (suc (suc zero)))))) = refl
factor-power (suc (suc (suc (suc (suc (suc (suc n))))))) = ground arith

-- The delay before the n-th retry is the base delay times 1, 2, 4, 8, 16, 32 and from the seventh on 64, without
-- overflow as long as 64 times the base delay is an int64.
pub retry_time-delay :
    (now base n : ℕ) → base * 64 < 2 ^ 63 → retry_time now base n ≡ pos (now + base * factor n)
unfolding retry_time to_int64 add_duration
retry_time-delay now base zero h = ground arith
retry_time-delay now base (suc zero) h = ground arith
retry_time-delay now base (suc (suc zero)) h = ground arith
retry_time-delay now base (suc (suc (suc zero))) h = ground arith
retry_time-delay now base (suc (suc (suc (suc zero)))) h = ground arith
retry_time-delay now base (suc (suc (suc (suc (suc zero))))) h = ground arith
retry_time-delay now base (suc (suc (suc (suc (suc (suc zero)))))) h = ground arith
retry_time-delay now base (suc (suc (suc (suc (suc (suc (suc n))))))) h = ground arith
