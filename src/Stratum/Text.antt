-- ===== src/Stratum/Text.antt =====
-- The texts of crates/stratum and of the pool's session: the names of methods and the messages of
-- errors, as their bytes.
use mac_solo_miner.Base.{ℕ, List, [], ◌∷◌}

-- "Job not found"
abbrev pub job_not_found : List ℕ
job_not_found = 74 ∷ 111 ∷ 98 ∷ 32 ∷ 110 ∷ 111 ∷ 116 ∷ 32 ∷ 102 ∷ 111 ∷ 117 ∷ 110 ∷ 100 ∷ []

-- "Low difficulty share"
abbrev pub low_difficulty_share : List ℕ
low_difficulty_share =
    76 ∷ 111 ∷ 119 ∷ 32 ∷ 100 ∷ 105 ∷ 102 ∷ 102 ∷ 105 ∷ 99 ∷ 117 ∷ 108 ∷ 116 ∷ 121 ∷ 32 ∷ 115 ∷ 104
    ∷ 97 ∷ 114 ∷ 101 ∷ []

-- "Duplicate share"
abbrev pub duplicate_share : List ℕ
duplicate_share =
    68 ∷ 117 ∷ 112 ∷ 108 ∷ 105 ∷ 99 ∷ 97 ∷ 116 ∷ 101 ∷ 32 ∷ 115 ∷ 104 ∷ 97 ∷ 114 ∷ 101 ∷ []

-- "Unauthorized worker"
abbrev pub unauthorized_worker : List ℕ
unauthorized_worker =
    85 ∷ 110 ∷ 97 ∷ 117 ∷ 116 ∷ 104 ∷ 111 ∷ 114 ∷ 105 ∷ 122 ∷ 101 ∷ 100 ∷ 32 ∷ 119 ∷ 111 ∷ 114 ∷ 107
    ∷ 101 ∷ 114 ∷ []

-- "mining.subscribe"
abbrev pub subscribe : List ℕ
subscribe =
    109 ∷ 105 ∷ 110 ∷ 105 ∷ 110 ∷ 103 ∷ 46 ∷ 115 ∷ 117 ∷ 98 ∷ 115 ∷ 99 ∷ 114 ∷ 105 ∷ 98 ∷ 101 ∷ []

-- "mining.authorize"
abbrev pub authorize : List ℕ
authorize =
    109 ∷ 105 ∷ 110 ∷ 105 ∷ 110 ∷ 103 ∷ 46 ∷ 97 ∷ 117 ∷ 116 ∷ 104 ∷ 111 ∷ 114 ∷ 105 ∷ 122 ∷ 101 ∷ []

-- "mining.submit"
abbrev pub submit : List ℕ
submit = 109 ∷ 105 ∷ 110 ∷ 105 ∷ 110 ∷ 103 ∷ 46 ∷ 115 ∷ 117 ∷ 98 ∷ 109 ∷ 105 ∷ 116 ∷ []

-- "mining.notify"
abbrev pub notify : List ℕ
notify = 109 ∷ 105 ∷ 110 ∷ 105 ∷ 110 ∷ 103 ∷ 46 ∷ 110 ∷ 111 ∷ 116 ∷ 105 ∷ 102 ∷ 121 ∷ []

-- "mining.set_difficulty"
abbrev pub set_difficulty : List ℕ
set_difficulty =
    109 ∷ 105 ∷ 110 ∷ 105 ∷ 110 ∷ 103 ∷ 46 ∷ 115 ∷ 101 ∷ 116 ∷ 95 ∷ 100 ∷ 105 ∷ 102 ∷ 102 ∷ 105 ∷ 99
    ∷ 117 ∷ 108 ∷ 116 ∷ 121 ∷ []

-- "method"
abbrev pub method_key : List ℕ
method_key = 109 ∷ 101 ∷ 116 ∷ 104 ∷ 111 ∷ 100 ∷ []

-- "unsupported method "
abbrev pub unsupported_method : List ℕ
unsupported_method =
    117 ∷ 110 ∷ 115 ∷ 117 ∷ 112 ∷ 112 ∷ 111 ∷ 114 ∷ 116 ∷ 101 ∷ 100 ∷ 32 ∷ 109 ∷ 101 ∷ 116 ∷ 104
    ∷ 111 ∷ 100 ∷ 32 ∷ []

-- "node rejected block: "
abbrev pub node_rejected_block : List ℕ
node_rejected_block =
    110 ∷ 111 ∷ 100 ∷ 101 ∷ 32 ∷ 114 ∷ 101 ∷ 106 ∷ 101 ∷ 99 ∷ 116 ∷ 101 ∷ 100 ∷ 32 ∷ 98 ∷ 108 ∷ 111
    ∷ 99 ∷ 107 ∷ 58 ∷ 32 ∷ []
