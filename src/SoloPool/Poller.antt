-- ===== src/SoloPool/Poller.antt =====
-- crates/solo-pool/src/main.rs: `poll_templates`, which makes jobs of the node's templates. A round
-- of its loop is a function of what the node and the clocks answer in it. The clock is read once a
-- round, in milliseconds; the texts for the console, and the sleep, are left out.
pub mod Tracked
use mac_solo_miner.Base.{
  bytes_eq, ℕ, ◌+◌, ◌-◌, ◌*◌, Bool, true, false, not, ◌&&◌, ◌||◌, if◌then◌else◌, leb, ◌==◌, List,
  Option, none, some, Result, ok, err, ℤ, pos, negsuc,
}
use mac_solo_miner.BitcoindRpc.Network.{Network, regtest, testnet4, mainnet, BlockchainInfo}
use mac_solo_miner.BitcoindRpc.Template.{BlockTemplate, TemplateError, compact_bits}
use mac_solo_miner.BtcPrimitives.Target.{Target, TargetError, from_compact}
use mac_solo_miner.Stratum.Job.{to_notify_params}
use mac_solo_miner.Stratum.Message.{Request, notification}
use mac_solo_miner.Stratum.Text
use mac_solo_miner.SoloPool.JobBuilder.{ActiveJob, BuildError, build}
use mac_solo_miner.SoloPool.MinDifficulty.{Window, plan, min_difficulty_bits}
use mac_solo_miner.SoloPool.Readiness.{NotReady, check_node}
use mac_solo_miner.SoloPool.State.{PoolState, allocate_job_id, set_current_job, broadcast}

-- In milliseconds.
abbrev pub refresh_interval : ℕ
refresh_interval = 30 * 1000

abbrev pub max_template_outage : ℕ
max_template_outage = 120 * 1000

abbrev pub readiness_interval : ℕ
readiness_interval = 60 * 1000

-- The variables of the loop.
pub record Poller : Type 0 where
  pub last_tip : Option (List ℕ)
  pub last_bits : Option ℕ
  pub last_built : ℕ
  pub last_job_installed : ℕ
  pub last_readiness_check : ℕ
  pub announced_ready : Bool

unfoldable pub start_poller : ℕ → Poller
start_poller now = record {
  last_tip = none;
  last_bits = none;
  last_built = now;
  last_job_installed = now;
  last_readiness_check = now;
  announced_ready = false;
}

-- What a round is answered: the template, the time of the parent block, the state of the node with
-- its peers, the clock of the intervals, the time of day, and which senders take a line.
pub record Answers : Type 0 where
  pub template : Result (List ℕ) BlockTemplate
  pub parent_time : Result (List ℕ) ℕ
  pub node : Result (List ℕ) (BlockchainInfo × ℕ)
  pub now : ℕ
  pub unix_now : ℤ
  pub is_sent : ℕ → Bool

pub data Verdict : Type 0 where
  continues : Verdict
  outage : Verdict
  unfit : NotReady → Verdict

pub record Polled : Type 0 where
  pub poller : Poller
  pub pool : PoolState
  pub notified : Option Request

-- `last_tip.as_ref() != Some(&tip)`
unfoldable pub tip_changed : Option (List ℕ) → List ℕ → Bool
tip_changed none tip = true
tip_changed (some last) tip = not (bytes_eq last tip)

unfoldable pub bits_changed : Option ℕ → Option ℕ → Bool
bits_changed none bits = false
bits_changed (some last) none = false
bits_changed (some last) (some bits) = not (bits == last)

-- `Result::ok`
abbrev pub ok_of : Result TemplateError ℕ → Option ℕ
ok_of (err e) = none
ok_of (ok bits) = some bits

-- A moment before 1970 is past at any time, as the moment 0 is.
abbrev pub moment : ℤ → ℕ
moment (pos n) = n
moment (negsuc n) = 0

unfoldable pub warp : Window → Target → ActiveJob → ActiveJob
warp window target active = record active {
  job = record active.job { time = window.ntime; bits = min_difficulty_bits };
  network_target = target;
  submit_not_before = some (moment window.legal_at);
}

unfoldable pub warp_with : Result (List ℕ) ℕ → Result TargetError Target → ActiveJob → ActiveJob
warp_with (err e) target active = active
warp_with (ok parent_time) (err e) active = active
warp_with (ok parent_time) (ok target) active = warp (plan parent_time) target active

-- Only testnet4 has the minimum difficulty exploited.
unfoldable pub adjust : Network → Result (List ℕ) ℕ → ActiveJob → ActiveJob
adjust regtest parent_time active = active
adjust mainnet parent_time active = active
adjust testnet4 parent_time active = warp_with parent_time (from_compact min_difficulty_bits) active

unfoldable pub install_job : Answers → BlockTemplate → Poller → PoolState → ActiveJob → Polled
install_job answers template poller pool active = record {
  poller = record poller {
    last_tip = some template.previous_block_hash;
    last_bits = ok_of (compact_bits template);
    last_built = answers.now;
    last_job_installed = answers.now;
    announced_ready = true;
  };
  pool = broadcast answers.is_sent (set_current_job active pool);
  notified = some (notification Text.notify (to_notify_params active.job));
}

unfoldable pub on_build :
    Network → Answers → BlockTemplate → Poller → PoolState → Result BuildError ActiveJob → Polled
on_build network answers template poller pool (err e) = record {
  poller = poller;
  pool = pool;
  notified = none;
}
on_build network answers template poller pool (ok active) =
    install_job answers template poller pool (adjust network answers.parent_time active)

unfoldable pub on_template :
    Network → List ℕ → Answers → Result (List ℕ) BlockTemplate → Poller → PoolState → Polled
on_template network payout_script answers (err e) poller pool = record {
  poller = poller;
  pool = pool;
  notified = none;
}
on_template network payout_script answers (ok template) poller pool =
    let new_tip = tip_changed poller.last_tip template.previous_block_hash in
    let new_bits = bits_changed poller.last_bits (ok_of (compact_bits template)) in
    let stale = leb refresh_interval (answers.now - poller.last_built) in
    let (job_id, allocated) = allocate_job_id pool in
    let built =
      on_build network answers template poller allocated
        (build job_id template payout_script (new_tip || new_bits)) in
    if (new_tip || new_bits) || stale
    then built
    else record { poller = poller; pool = pool; notified = none }

unfoldable pub node_verdict : Network → ℤ → Result (List ℕ) (BlockchainInfo × ℕ) → Verdict
node_verdict network unix_now (err e) = continues
node_verdict network unix_now (ok (info, peers)) = elim (check_node network info peers unix_now) [
  | err reason ↦ unfit reason
  | ok ready ↦ continues
]

-- Behind the template: the outage, then the state of the node.
unfoldable pub check_health : Network → Answers → Poller → Verdict × Poller
check_health network answers poller =
    let checked = record poller { last_readiness_check = answers.now } in
    if leb max_template_outage (answers.now - poller.last_job_installed)
    then (outage, poller)
    else if leb readiness_interval (answers.now - poller.last_readiness_check)
    then (node_verdict network answers.unix_now answers.node, checked)
    else (continues, poller)

-- A round of the loop.
unfoldable pub poll_round : Network → List ℕ → Answers → Poller → PoolState → Verdict × Polled
poll_round network payout_script answers poller pool =
    let polled = on_template network payout_script answers answers.template poller pool in
    let (verdict, after) = check_health network answers polled.poller in
    (verdict, record polled { poller = after })
