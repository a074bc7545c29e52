-- ===== src/Tester/Api.antt =====
-- The types of web/frontend/src/api/api.ts for a tester, its profile and its plan. `number` is the
-- parameter `N`, and an enumeration of strings is its string.
use fru_lab.Prelude.{Bool, Option, List}
use fru_lab.Js.Text.{Text}

pub record TesterProfileScale (N : Type 0) : Type 0 where
  pub gnb_count : N
  pub ue_count : N
  pub throughput_ue_count : N

pub record TesterProfileGnb (N : Type 0) : Type 0 where
  pub gnb_id_start : Text
  pub name_pattern : Text
  pub mcc : Text
  pub mnc : Text
  pub tac : Text
  pub sst : N
  pub sd : Text

pub record TesterUeTemplate (N : Type 0) : Type 0 where
  pub msin_start : Text
  pub key : Text
  pub opc : Text
  pub amf : Text
  pub sqn : Text
  pub integrity : Text
  pub ciphering : Text
  pub dnn : Text
  pub sst : N
  pub sd : Text

pub record TesterTraffic (N : Type 0) : Type 0 where
  pub ul_mbps : N
  pub dl_mbps : N
  pub ul_packet_size : N
  pub dl_packet_size : N
  pub port : N
  pub max_duration_min : N
  pub dl_batch_ms : N
  pub engine : Text

pub record TesterProfileNetworkN2 (N : Type 0) : Type 0 where
  pub interface_name : Text
  pub cidr : Text
  pub start_ip : Text
  pub amf_ip : Text
  pub amf_port : N

pub record TesterProfileNetworkN3 (N : Type 0) : Type 0 where
  pub interface_name : Text
  pub cidr : Text
  pub start_ip : Text
  pub upf_ip : Text
  pub upf_port : N

pub record TesterProfileNetworkN6 : Type 0 where
  pub interface_name : Text
  pub sink_ip : Text
  pub upf_ip : Text
  pub ue_pool : Text

pub record TesterProfileNetwork (N : Type 0) : Type 0 where
  pub n2 : TesterProfileNetworkN2 N
  pub n3 : TesterProfileNetworkN3 N
  pub n6 : TesterProfileNetworkN6

pub record TesterN2Rate (N : Type 0) : Type 0 where
  pub rate_per_sec : Option N
  pub max_in_flight : Option N
  pub timeout_ms : N
  pub retries : N

pub record TesterProcedureRate (N : Type 0) : Type 0 where
  pub rate_per_sec : N
  pub max_in_flight : N
  pub timeout_ms : N
  pub retries : N

pub record TesterCpLoopRate (N : Type 0) : Type 0 where
  pub rate_per_sec : N
  pub max_in_flight : N
  pub timeout_ms : N
  pub hold_ms : N

pub record TesterProfileRates (N : Type 0) : Type 0 where
  pub n2 : TesterN2Rate N
  pub registration : TesterProcedureRate N
  pub pdu : TesterProcedureRate N
  pub deregistration : TesterProcedureRate N
  pub cp_loop : TesterCpLoopRate N

pub record TesterProfile (N : Type 0) : Type 0 where
  pub name : Text
  pub tester_id : Option Text
  pub scale : TesterProfileScale N
  pub gnb : TesterProfileGnb N
  pub ue : TesterUeTemplate N
  pub traffic : TesterTraffic N
  pub network : TesterProfileNetwork N
  pub rates : TesterProfileRates N

pub record TesterEntry : Type 0 where
  pub id : Text
  pub url : Text
  pub built_in : Bool

pub record TesterGnbSpec (N : Type 0) : Type 0 where
  pub cp_ue_count : N
  pub gnb_index : N
  pub name : Text
  pub gnb_id : Text
  pub n2_ip : Text
  pub n3_ip : Text
  pub ue_count : N
  pub ue_first : N
  pub ue_last : N
  pub first_supi : Text
  pub last_supi : Text

pub record TesterPlan (N : Type 0) : Type 0 where
  pub gnbs : List (TesterGnbSpec N)
  pub ues_per_gnb : N
  pub n2_prefix : N
  pub n3_prefix : N
