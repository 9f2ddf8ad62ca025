-- ===== src/Stratum/Share/RoundTrip.antt =====
-- A share is read back from its parameters.
use mac_solo_miner.Base.{◌^◌, ◌<◌, ◌≡◌, refl, IsBytes, ok}
use mac_solo_miner.BtcPrimitives.Hex.RoundTrip.{decode_array-encode}
use mac_solo_miner.Stratum.Hex32.RoundTrip.{from_hex32-to_hex32}
use mac_solo_miner.Stratum.Params.{string_at}
use mac_solo_miner.Stratum.Share.{
  Share, to_submit_params, string_param, u32_from_hex, read_share, from_submit_params,
}

-- What the field types of Rust give.
pub record IsShare (s : Share) : Type 0 where
  pub extranonce_fits : IsBytes s.extranonce2
  pub time_fits : s.time < 2 ^ 32
  pub nonce_fits : s.nonce < 2 ^ 32

-- A share is read back from the parameters that it is sent as.
pub from_submit_params-to_submit_params :
    (share : Share) → IsShare share → from_submit_params (to_submit_params share) ≡ ok share
unfolding from_submit_params to_submit_params read_share string_param string_at u32_from_hex
from_submit_params-to_submit_params share fits =
    rw
      (
        (decode_array-encode share.extranonce2 fits.extranonce_fits).0,
        from_hex32-to_hex32 share.time fits.time_fits,
        from_hex32-to_hex32 share.nonce fits.nonce_fits,
      )
      refl
