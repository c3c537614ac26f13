-- ===== src/Examples/Identities.antt =====
-- Identities and the health check at concrete values.
use liq_ranger.Base.{ℕ, ◌*◌, ◌^◌, ◌≡◌, refl, true, ok, [], ◌∷◌, ◌++◌}
use liq_ranger.Core.Identity.{morpho_blue, to_string_id, from_str, split, Text, morpho_tag, colon}
use liq_ranger.Core.Identity.RoundTrip.{from_str-to_string_id}
use liq_ranger.Core.Types.{Position, Market}
use liq_ranger.Core.Health.{is_healthy}
use liq_ranger.Math.Morpho.{to_assets_up, mul_div_up}
use liq_ranger.Examples.{short_hex}

from_str-to_string_id_example :
    from_str short_hex (to_string_id short_hex (morpho_blue 7 9)) ≡ ok (morpho_blue 7 9)
from_str-to_string_id_example = from_str-to_string_id short_hex (morpho_blue 7 9)

abbrev morpho_text : Text
morpho_text = morpho_tag ++ (colon ∷ b'h' ∷ 66 ∷ colon ∷ b'x' ∷ 68 ∷ [])

reads_text : from_str short_hex morpho_text ≡ ok (morpho_blue 7 9)
unfolding from_str split
reads_text = refl

-- A debt of 50 against a collateral worth 100, at a loan-to-value of 86%.
abbrev position : ℕ → Position
position collateral = record { borrow_shares = 50_000_000; collateral = collateral }

abbrev market : Market
market = record { total_borrow_assets = 99; total_borrow_shares = 99_000_000 }

abbrev price : ℕ
price = 10 ^ 36

healthy_at : is_healthy (position 100) market (86 * 10 ^ 16) price ≡ ok true
unfolding is_healthy to_assets_up mul_div_up
healthy_at = refl
