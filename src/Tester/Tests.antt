-- ===== src/Tester/Tests.antt =====
-- Runs of the tester pages' functions, and the theorems at concrete inputs.
use fru_lab.Prelude.{ℕ, ◌≡◌, refl, true, false, none, some, List, [], ◌∷◌}
use fru_lab.Js.Text.{codes}
use fru_lab.Js.Split.{split}
use fru_lab.Js.Decimal.{digits}
use fru_lab.Js.Numbers.{whole}
use fru_lab.Tester.Api.{TesterProfile}
use fru_lab.Tester.Sending.{for_tester}
use fru_lab.Tester.Fleet.{TesterOption}
use fru_lab.Tester.Clock.{format_clock}
use fru_lab.Tester.Defaults.{number, default_tester_profile, member}
use fru_lab.Tester.Fields.{set_path, handle_change, IsPath}

abbrev profile : TesterProfile ℕ
profile = record {
  name = codes "basic";
  tester_id = some (codes "lab");
  scale = record { gnb_count = 10; ue_count = 1000; throughput_ue_count = 1000 };
  gnb = record {
    gnb_id_start = codes "000314";
    name_pattern = codes "gNB-{i}";
    mcc = codes "208";
    mnc = codes "93";
    tac = codes "000001";
    sst = 1;
    sd = codes "010203";
  };
  ue = record {
    msin_start = codes "0000000001";
    key = codes "8baf";
    opc = codes "8e27";
    amf = codes "8000";
    sqn = codes "23";
    integrity = codes "nia2";
    ciphering = codes "nea0";
    dnn = codes "internet";
    sst = 1;
    sd = codes "010203";
  };
  traffic = record {
    ul_mbps = 1;
    dl_mbps = 1;
    ul_packet_size = 1400;
    dl_packet_size = 1400;
    port = 9200;
    max_duration_min = 0;
    dl_batch_ms = 1;
    engine = codes "auto";
  };
  network = record {
    n2 = record {
      interface_name = codes "eth0";
      cidr = codes "10.0.1.0/24";
      start_ip = codes "10.0.1.100";
      amf_ip = codes "10.0.1.3";
      amf_port = 38412;
    };
    n3 = record {
      interface_name = codes "eth0";
      cidr = codes "10.0.1.0/24";
      start_ip = codes "10.0.1.100";
      upf_ip = codes "10.0.1.5";
      upf_port = 2152;
    };
    n6 = record {
      interface_name = codes "eth0";
      sink_ip = codes "10.0.1.1/24";
      upf_ip = codes "10.0.1.5";
      ue_pool = codes "10.60.0.0/16";
    };
  };
  rates = record {
    n2 = record { rate_per_sec = some 0; max_in_flight = some 5; timeout_ms = 5000; retries = 1 };
    registration = record {
      rate_per_sec = 50;
      max_in_flight = 200;
      timeout_ms = 10000;
      retries = 1;
    };
    pdu = record { rate_per_sec = 50; max_in_flight = 200; timeout_ms = 10000; retries = 1 };
    deregistration = record {
      rate_per_sec = 50;
      max_in_flight = 200;
      timeout_ms = 5000;
      retries = 1;
    };
    cp_loop = record { rate_per_sec = 50; max_in_flight = 200; timeout_ms = 10000; hold_ms = 1000 };
  };
}

no_limit : (for_tester whole profile).rates.n2.rate_per_sec ≡ none
unfolding for_tester
no_limit = refl

abbrev testers : List TesterOption
testers =
    record {
      id = codes "default";
      url = codes "http://a";
      built_in = true;
      name = codes "http://a";
      reachable = none;
    }
    ∷ record {
      id = codes "lab";
      url = codes "http://b";
      built_in = false;
      name = codes "http://b";
      reachable = none;
    }
    ∷ []

clock : format_clock 292 ≡ codes "00:04:52"
unfolding format_clock digits
clock = refl

-- Every UE carries traffic before the change, and after it.
all_throughput :
    member (codes "throughputUeCount") (
      member
        (codes "scale")
        (handle_change whole (codes "scale.ueCount") (number 7) (default_tester_profile whole)))
    ≡ number 7
unfolding handle_change set_path split
all_throughput = refl

port-IsPath : IsPath (split b'.' (codes "network.n2.amfPort")) (default_tester_profile whole)
unfolding split
port-IsPath = (refl, (refl, refl))
