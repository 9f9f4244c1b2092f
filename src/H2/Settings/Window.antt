-- ===== src/H2/Settings/Window.antt =====
-- The change of the windows by SETTINGS_INITIAL_WINDOW_SIZE.
use http2serv.Prelude.{ℕ, ◌^◌, ◌<◌, ◌≡◌, arith}
use http2serv.Prelude.Int.{pos, ◌+ℤ◌}
use http2serv.H2.Settings.{signed32, window_change}

-- For two window sizes below 2 ^ 31 the 64-bit subtraction and its conversion to an int32_t are the
-- true difference: the old size and the change make the new size.
pub window_change-difference :
    (value old : ℕ) → value < 2 ^ 31 → old < 2 ^ 31 → pos old +ℤ window_change value old ≡ pos value
unfolding window_change signed32 ◌+ℤ◌
window_change-difference value old hv ho = ground arith
