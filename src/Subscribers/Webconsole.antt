-- ===== src/Subscribers/Webconsole.antt =====
-- The types of web/frontend/src/webconsoleApi/api.ts that a subscription is made of. An optional
-- field is an `Option`, a map by string is an `Object`, and `number` is the parameter `N`.
use fru_lab.Prelude.{Option, List}
use fru_lab.Js.Text.{Text}
use fru_lab.Js.Objects.{Object}

pub record Arp (N : Type 0) : Type 0 where
  pub priority_level : N
  pub preempt_cap : Text
  pub preempt_vuln : Text

pub record PermanentKey (N : Type 0) : Type 0 where
  pub permanent_key_value : Text
  pub encryption_key : N
  pub encryption_algorithm : N

pub record MilenageOp (N : Type 0) : Type 0 where
  pub op_value : Text
  pub encryption_key : N
  pub encryption_algorithm : N

pub record Milenage (N : Type 0) : Type 0 where
  pub op : Option (MilenageOp N)

pub record Opc (N : Type 0) : Type 0 where
  pub opc_value : Text
  pub encryption_key : N
  pub encryption_algorithm : N

pub record AuthenticationSubscription (N : Type 0) : Type 0 where
  pub authentication_method : Text
  pub permanent_key : PermanentKey N
  pub sequence_number : Text
  pub authentication_management_field : Option Text
  pub milenage : Option (Milenage N)
  pub opc : Option (Opc N)

pub record Nssai (N : Type 0) : Type 0 where
  pub sst : N
  pub sd : Option Text

pub record DefaultSingleNssais (N : Type 0) : Type 0 where
  pub default_single_nssais : List (Nssai N)
  pub single_nssais : Option (List (Nssai N))

pub record SubscribedUeAmbr : Type 0 where
  pub uplink : Text
  pub downlink : Text

pub record AccessAndMobilitySubscriptionData (N : Type 0) : Type 0 where
  pub gpsis : Option (List Text)
  pub subscribed_ue_ambr : Option SubscribedUeAmbr
  pub nssai : Option (DefaultSingleNssais N)

pub record PduSessionTypes : Type 0 where
  pub default_session_type : Text
  pub allowed_session_types : Option (List Text)

pub record SscModes : Type 0 where
  pub default_ssc_mode : Text
  pub allowed_ssc_modes : Option (List Text)

pub record Model5gQosProfile (N : Type 0) : Type 0 where
  pub five_qi : N
  pub arp : Arp N
  pub priority_level : Option N

pub record SessionAmbr : Type 0 where
  pub uplink : Text
  pub downlink : Text

pub record IpAddress : Type 0 where
  pub ipv4_addr : Option Text
  pub ipv6_addr : Option Text
  pub ipv6_prefix : Option Text

pub record UpSecurity : Type 0 where
  pub up_integr : Text
  pub up_confid : Text

pub record DnnConfiguration (N : Type 0) : Type 0 where
  pub pdu_session_types : PduSessionTypes
  pub ssc_modes : SscModes
  pub five_g_qos_profile : Option (Model5gQosProfile N)
  pub session_ambr : Option SessionAmbr
  pub static_ip_address : Option (List IpAddress)
  pub up_security : Option UpSecurity

pub record SessionManagementSubscriptionData (N : Type 0) : Type 0 where
  pub single_nssai : Nssai N
  pub dnn_configurations : Option (Object (DnnConfiguration N))

pub record Dnn : Type 0 where
  pub dnn : Text

pub record SubscribedSnssaiInfo : Type 0 where
  pub dnn_infos : List Dnn

pub record SmfSelectionSubscriptionData : Type 0 where
  pub subscribed_snssai_infos : Option (Object SubscribedSnssaiInfo)

pub record AmPolicyData : Type 0 where
  pub subsc_cats : Option (List Text)

pub record SmPolicySnssai (N : Type 0) : Type 0 where
  pub snssai : Nssai N
  pub sm_policy_dnn_data : Option (Object Dnn)

pub record SmPolicyData (N : Type 0) : Type 0 where
  pub sm_policy_snssai_data : Object (SmPolicySnssai N)

pub record FlowRules (N : Type 0) : Type 0 where
  pub filter : Option Text
  pub precedence : Option N
  pub snssai : Option Text
  pub dnn : Option Text
  pub qos_ref : Option N

pub record QosFlows (N : Type 0) : Type 0 where
  pub snssai : Text
  pub dnn : Text
  pub qos_ref : N
  pub five_qi : N
  pub mbr_ul : Option Text
  pub mbr_dl : Option Text
  pub gbr_ul : Option Text
  pub gbr_dl : Option Text

pub record ChargingData (N : Type 0) : Type 0 where
  pub snssai : Option Text
  pub dnn : Text
  pub qos_ref : Option N
  pub filter : Text
  pub charging_method : Option Text
  pub quota : Option Text
  pub unit_cost : Option Text
  pub ue_id : Option Text

pub record Subscriber : Type 0 where
  pub plmn_id : Text
  pub ue_id : Text
  pub gpsi : Text

pub record Subscription (N : Type 0) : Type 0 where
  pub user_number : Option N
  pub plmn_id : Text
  pub ue_id : Text
  pub authentication_subscription : AuthenticationSubscription N
  pub access_and_mobility_subscription_data : AccessAndMobilitySubscriptionData N
  pub session_management_subscription_data : List (SessionManagementSubscriptionData N)
  pub smf_selection_subscription_data : SmfSelectionSubscriptionData
  pub am_policy_data : AmPolicyData
  pub sm_policy_data : SmPolicyData N
  pub flow_rules : List (FlowRules N)
  pub qos_flows : List (QosFlows N)
  pub charging_datas : List (ChargingData N)
