-- ===== src/SimpleIca/Checks.antt =====
-- packages/simple-ica/src/checks.rs
use cw_ibc_demo.Prelude.{String, ◌≡◌, ◌↔◌, ◌==◌, if◌then◌else◌, Outcome, ok, err, arith}
use cw_ibc_demo.Std.{IbcOrder, unordered, ordered}
use cw_ibc_demo.SimpleIca.Types.{
  SimpleIcaError, invalid_channel_order, invalid_channel_version, ibc_app_version, app_order,
}

-- `order != &APP_ORDER`, where `APP_ORDER` is `Unordered`
unfoldable pub check_order : IbcOrder → Outcome SimpleIcaError (Unit {0})
check_order unordered = ok tt
check_order ordered = err invalid_channel_order

unfoldable pub check_version : String → Outcome SimpleIcaError (Unit {0})
check_version version =
    if version == ibc_app_version then ok tt else err (invalid_channel_version ibc_app_version)

pub check_order-ok : (o : IbcOrder) → (check_order o ≡ ok tt) ↔ (o ≡ app_order)
unfolding check_order
check_order-ok o = ground arith
