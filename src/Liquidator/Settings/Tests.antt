-- ===== src/Liquidator/Settings/Tests.antt =====
-- Environments of crates/liquidator/src/settings.rs at concrete inputs.
use alpharouting.Prelude.{◌≡◌, ◌↔◌, refl, [], ◌∷◌}
use alpharouting.Text.{codes, text_eq}
use alpharouting.Text.Decimal.{parse_unsigned}
use alpharouting.Liquidator.Settings.{ok, missing, invalid, from_env}
use alpharouting.Liquidator.Samples.{lookup, parse, vars, read_settings}
use alpharouting.Liquidator.Settings.Complete.{IsRead, from_env_iff}

reads_settings : from_env (lookup vars) parse parse ≡ ok read_settings
unfolding from_env text_eq parse_unsigned
reads_settings = refl

needs_a_url : from_env (lookup []) parse parse ≡ missing (codes "RPC_URL")
unfolding from_env
needs_a_url = refl

refuses_a_fee :
    from_env (lookup ((codes "SELL_FEE_BPS", codes "5%") ∷ vars)) parse parse
    ≡ invalid (codes "SELL_FEE_BPS")
unfolding from_env text_eq parse_unsigned
refuses_a_fee = refl

from_env_iff_example :
    (from_env (lookup vars) parse parse ≡ ok read_settings)
    ↔ IsRead (lookup vars) parse parse read_settings
from_env_iff_example = from_env_iff (lookup vars) parse parse read_settings
