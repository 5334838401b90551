-- ===== src/Auth/Rates.antt =====
-- What the exchange rate depends on.
use voip_platform.Base.{◌≡◌, refl, false, ◌==◌}
use voip_platform.Base.Text.{Text, text_eq, lower}
use voip_platform.Auth.{get_fx_rate}
use voip_platform.Core.{Env}
use voip_platform.Core.Monad.{World}

-- get_fx_rate gives the same result for any two target currencies that both differ, in lower case,
-- from the source currency.
pub get_fx_rate_ignores_target :
    {F : Type 0} (env : Env F) (from_currency target other : Text) (w : World)
    → (lower from_currency == lower target) ≡ false
    → (lower from_currency == lower other) ≡ false
    → get_fx_rate env from_currency target w ≡ get_fx_rate env from_currency other w
unfolding get_fx_rate
get_fx_rate_ignores_target env from_currency target other w h k = rw (h, k) refl
