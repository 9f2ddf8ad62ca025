-- ===== src/BitcoindRpc/Tests.antt =====
-- Calls on concrete nodes.
use mac_solo_miner.Base.{arith, ℕ, false, ◌&&◌, List, [], ◌∷◌, ok, ◌≡◌}
use mac_solo_miner.Stratum.Value.{null}
use mac_solo_miner.BitcoindRpc.Auth.{authorization_header, base64_encode}
use mac_solo_miner.BitcoindRpc.Auth.Base64.{base64_decode, base64_decode-base64_encode}
use mac_solo_miner.BitcoindRpc.Text.{root_path}
use mac_solo_miner.BitcoindRpc.Client.{RpcClient, Outside, request_of, call_at}
use mac_solo_miner.BitcoindRpc.Client.Refused.{
  is_refusal, is_refused_again, is_unauthorized, call_at-unauthorized,
}

-- A node that refuses everybody; the library of JSON reads every body as `null`.
abbrev deaf_node : Outside
deaf_node = record {
  exchange = λ number header path request. ok (record { status = 401; body = [] });
  cookie = ok (97 ∷ 58 ∷ 98 ∷ []);
  to_text = λ value. [];
  from_str = λ text. ok null;
  decimal = λ n. n ∷ [];
  is_i64 = λ value. false;
}

abbrev stale_client : RpcClient
stale_client = record { credentials = 97 ∷ 58 ∷ 99 ∷ []; next_id = 1 }

call_at-unauthorized_example :
    is_unauthorized (call_at (λ value. ok value) deaf_node stale_client root_path [] null).0 ≡ (
      is_refusal (
        deaf_node.exchange 0
          (authorization_header stale_client.credentials)
          root_path
          (request_of deaf_node 1 [] null))
      && is_refused_again deaf_node root_path (request_of deaf_node 1 [] null) deaf_node.cookie)
call_at-unauthorized_example =
    call_at-unauthorized (λ value. ok value) deaf_node stale_client root_path [] null

abbrev cookie_text : List ℕ
cookie_text = 97 ∷ 58 ∷ 98 ∷ 99 ∷ []

base64_decode-base64_encode_example : base64_decode (base64_encode cookie_text) ≡ cookie_text
base64_decode-base64_encode_example =
    base64_decode-base64_encode cookie_text
      (omega arith, (omega arith, (omega arith, (omega arith, tt))))
