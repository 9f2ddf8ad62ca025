-- ===== src/BitcoindRpc/Text.antt =====
-- crates/bitcoind-rpc/src/client.rs: the names of a call and of its answer, in UTF-8.
use mac_solo_miner.Base.{ℕ, List, [], ◌∷◌}

-- "jsonrpc", "1.0", "id", "method", "params", "error", "code", "message", "(no message)", "result",
-- "/wallet/" and "/"
abbrev pub jsonrpc_key : List ℕ
jsonrpc_key = 106 ∷ 115 ∷ 111 ∷ 110 ∷ 114 ∷ 112 ∷ 99 ∷ []

abbrev pub jsonrpc_version : List ℕ
jsonrpc_version = 49 ∷ 46 ∷ 48 ∷ []

abbrev pub id_key : List ℕ
id_key = 105 ∷ 100 ∷ []

abbrev pub method_key : List ℕ
method_key = 109 ∷ 101 ∷ 116 ∷ 104 ∷ 111 ∷ 100 ∷ []

abbrev pub params_key : List ℕ
params_key = 112 ∷ 97 ∷ 114 ∷ 97 ∷ 109 ∷ 115 ∷ []

abbrev pub error_key : List ℕ
error_key = 101 ∷ 114 ∷ 114 ∷ 111 ∷ 114 ∷ []

abbrev pub code_key : List ℕ
code_key = 99 ∷ 111 ∷ 100 ∷ 101 ∷ []

abbrev pub message_key : List ℕ
message_key = 109 ∷ 101 ∷ 115 ∷ 115 ∷ 97 ∷ 103 ∷ 101 ∷ []

abbrev pub no_message : List ℕ
no_message = 40 ∷ 110 ∷ 111 ∷ 32 ∷ 109 ∷ 101 ∷ 115 ∷ 115 ∷ 97 ∷ 103 ∷ 101 ∷ 41 ∷ []

abbrev pub result_key : List ℕ
result_key = 114 ∷ 101 ∷ 115 ∷ 117 ∷ 108 ∷ 116 ∷ []

abbrev pub wallet_path : List ℕ
wallet_path = 47 ∷ 119 ∷ 97 ∷ 108 ∷ 108 ∷ 101 ∷ 116 ∷ 47 ∷ []

abbrev pub root_path : List ℕ
root_path = 47 ∷ []
