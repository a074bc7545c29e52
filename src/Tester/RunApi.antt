-- ===== src/Tester/RunApi.antt =====
-- The types of web/frontend/src/api/api.ts for a run on a tester. A count is a natural number, any
-- other `number` is the parameter `N`, and an enumeration of strings is its string, but for the
-- state of the run. An old tester sends no `gnbTotal`.
use fru_lab.Prelude.{ℕ, Bool, Option, List}
use fru_lab.Js.Text.{Text}
use fru_lab.Js.Objects.{Object}

pub data RunState : Type 0 where
  idle configuring n2 running stopping stopped failed : RunState

pub record TesterCauseCount : Type 0 where
  pub cause : Text
  pub count : ℕ

pub record TesterStageSnapshot (N : Type 0) : Type 0 where
  pub name : Text
  pub expected : ℕ
  pub attempted : ℕ
  pub retries : ℕ
  pub in_flight : ℕ
  pub accepted : ℕ
  pub rejected : ℕ
  pub timed_out : ℕ
  pub failed : ℕ
  pub skipped : ℕ
  pub done : Bool
  pub total_time_ms : N
  pub avg_ms : N
  pub p50_ms : N
  pub p95_ms : N
  pub p99_ms : N
  pub max_ms : N
  pub causes : List TesterCauseCount

pub record TesterCpPoint (N : Type 0) : Type 0 where
  pub t : N
  pub reg_per_sec : N
  pub dereg_per_sec : N
  pub fail_per_sec : N

pub record TesterCpLoopSnapshot (N : Type 0) : Type 0 where
  pub ues : ℕ
  pub state : Text
  pub started_at : Option Text
  pub duration_sec : N
  pub registered : ℕ
  pub cycles : ℕ
  pub registration : TesterStageSnapshot N
  pub deregistration : TesterStageSnapshot N
  pub cleanup : TesterStageSnapshot N
  pub series : List (TesterCpPoint N)

pub record TesterLatency (N : Type 0) : Type 0 where
  pub count : ℕ
  pub avg_ms : N
  pub p50_ms : N
  pub p99_ms : N
  pub max_ms : N

pub record TesterTrafficDirection (N : Type 0) : Type 0 where
  pub tx_packets : ℕ
  pub tx_bytes : ℕ
  pub rx_packets : ℕ
  pub rx_bytes : ℕ
  pub tx_bps : N
  pub rx_bps : N
  pub tx_pps : N
  pub rx_pps : N
  pub loss_rate : N
  pub out_of_order : ℕ
  pub send_errors : ℕ
  pub misrouted : ℕ
  pub latency : TesterLatency N

pub record TesterGnbTraffic : Type 0 where
  pub ul_tx_bytes : ℕ
  pub ul_rx_bytes : ℕ
  pub dl_tx_bytes : ℕ
  pub dl_rx_bytes : ℕ

pub record TesterTrafficPoint (N : Type 0) : Type 0 where
  pub t : N
  pub ul_tx_bps : N
  pub ul_rx_bps : N
  pub dl_tx_bps : N
  pub dl_rx_bps : N

pub record TesterDataplaneSnapshot (N : Type 0) : Type 0 where
  pub engine : Text
  pub active_ues : ℕ
  pub ul : TesterTrafficDirection N
  pub dl : TesterTrafficDirection N
  pub gnbs : List TesterGnbTraffic
  pub series : List (TesterTrafficPoint N)

pub record TesterGnbStatus (N : Type 0) : Type 0 where
  pub cp_ue_count : ℕ
  pub index : ℕ
  pub name : Text
  pub gnb_id : Text
  pub n2_ip : Text
  pub n3_ip : Text
  pub ue_count : ℕ
  pub ue_first : ℕ
  pub ue_last : ℕ
  pub first_supi : Text
  pub last_supi : Text
  pub state : Text
  pub attempts : ℕ
  pub latency_ms : N
  pub cause : Text
  pub registered : ℕ
  pub established : ℕ

pub record TesterUeSummary : Type 0 where
  pub pending : ℕ
  pub registering : ℕ
  pub registered : ℕ
  pub establishing : ℕ
  pub established : ℕ
  pub failed : ℕ
  pub skipped : ℕ
  pub cancelled : ℕ
  pub deregistering : ℕ
  pub deregistered : ℕ

pub record TesterUeFailure : Type 0 where
  pub supi : Text
  pub gnb : Text
  pub stage : Text
  pub cause : Text
  pub attempts : ℕ

pub record TesterCpuAllocation : Type 0 where
  pub cp_cpus : Text
  pub dp_cpus : Text

pub record TesterSetupPoint (N : Type 0) : Type 0 where
  pub t : N
  pub reg_per_sec : N
  pub pdu_per_sec : N
  pub fail_per_sec : N

pub record TesterRunSnapshot (N : Type 0) : Type 0 where
  pub run_id : Text
  pub profile_name : Text
  pub state : RunState
  pub error : Text
  pub started_at : Option Text
  pub stopped_at : Option Text
  pub n2 : TesterStageSnapshot N
  pub registration : TesterStageSnapshot N
  pub pdu : TesterStageSnapshot N
  pub deregistration : TesterStageSnapshot N
  pub n2_release : TesterStageSnapshot N
  pub stop_reason : Text
  pub gnbs : List (TesterGnbStatus N)
  pub gnb_total : Option ℕ
  pub gnb_offset : ℕ
  pub gnb_counts : Object ℕ
  pub ues : TesterUeSummary
  pub failed_ues : List TesterUeFailure
  pub dataplane : TesterDataplaneSnapshot N
  pub cpus : TesterCpuAllocation
  pub cp_loop : TesterCpLoopSnapshot N
  pub setup : Option (List (TesterSetupPoint N))
