-- ===== src/Tester/Run/Tests.antt =====
-- Runs of the run page, and the theorems at concrete inputs.
use fru_lab.Prelude.{
  ℕ, ◌≤◌, ◌≡◌, refl, true, false, none, some, List, [], ◌∷◌, ◌++◌, map, keep, arith,
}
use fru_lab.Js.Text.{Text, codes}
use fru_lab.Tester.RunApi.{
  running, TesterTrafficDirection, TesterGnbTraffic, TesterCauseCount, TesterStageSnapshot,
  TesterGnbStatus, TesterRunSnapshot,
}
use fru_lab.Components.Paging.{page_of}
use fru_lab.Tester.Run.Stream.{
  opened, connecting, Socket, Stream, Event, socket_opens, socket_closes, timer_fires, shows_gnbs,
  changes_tester, old_socket_closes, has_open, enter, connect, show_gnbs, step, run, gnb_query,
  gnb_page_size,
}
use fru_lab.Tester.Run.Stream.Live.{stream-IsLive, IsLive}
use fru_lab.Tester.Run.Stream.Shown.{stream_query}
use fru_lab.Tester.Run.Stream.Connected.{stream_connected, stale_flag, stale_page}
use fru_lab.Tester.Run.Stream.Reconnects.{LeadsBack, stream_reconnects}
use fru_lab.Tester.Run.Causes.{
  merge_causes, merge_causes_lem, IsDescending, entries_of, count_of, causes_of,
}
use fru_lab.Tester.Run.Pill.{pill_text}
use fru_lab.Js.Split.{split}
use fru_lab.Tester.Run.Gnbs.{pager, gnb_pages, pager-page_of, with_traffic, is_wanted}

-- The stream opens, the user turns to page 3, the connection drops and comes back.
abbrev events : List (Event ℕ)
events =
    socket_opens ∷ shows_gnbs 3 (codes "failed") ∷ socket_closes ∷ timer_fires ∷ socket_opens ∷ []

abbrev lab : Text
lab = codes "lab"

stream-IsLive_example : IsLive (run events (enter lab))
stream-IsLive_example = stream-IsLive ℕ lab events

abbrev third_page : Socket
third_page = record { tester_id = lab; ready_state = opened; told = gnb_query 3 (codes "failed") }

mounted : (run events (enter lab)).is_mounted ≡ true
unfolding run step enter connect show_gnbs
mounted = refl

there : (run events (enter lab)).socket ≡ some third_page
unfolding run step enter connect show_gnbs
there = refl

stream_query_example :
    third_page.told
    ≡ gnb_query (run events (enter lab)).gnb_page (run events (enter lab)).gnb_states
unfolding run step enter connect show_gnbs
stream_query_example =
    stream_query ℕ lab events (tt, (refl, (tt, (tt, (tt, tt))))) mounted third_page there refl

stream_connected_example :
    (run events (enter lab)).is_connected ≡ has_open (run events (enter lab)).socket
stream_connected_example = stream_connected ℕ lab events (tt, (tt, (tt, (tt, (tt, tt))))) mounted

stream_reconnects_example : (more : List (Event ℕ)) × LeadsBack (run events (enter lab)) more
stream_reconnects_example = stream_reconnects ℕ lab events mounted

abbrev first_socket : Socket
first_socket = record { tester_id = lab; ready_state = connecting; told = gnb_query 1 [] }

abbrev connecting_page : Stream ℕ
connecting_page = record {
  is_mounted = true;
  tester_id = lab;
  snapshot = none;
  is_connected = false;
  gnb_page = 1;
  gnb_states = [];
  query = gnb_query 1 [];
  socket = some first_socket;
  retry_timer = false;
  old = [];
}

begins_connecting : enter lab ≡ connecting_page
unfolding enter connect
begins_connecting = refl

stale_page_example :
    ((run (shows_gnbs 2 [] ∷ socket_opens ∷ []) connecting_page).query ≡ gnb_query 2 [])
    × ((run (shows_gnbs 2 [] ∷ socket_opens ∷ []) connecting_page).socket
        ≡ some (record first_socket { ready_state = opened }))
stale_page_example = stale_page ℕ connecting_page first_socket 2 [] refl refl refl

abbrev open_socket : Socket
open_socket = record first_socket { ready_state = opened }

abbrev open_page : Stream ℕ
open_page = record connecting_page { socket = some open_socket; is_connected = true }

stale_flag_example :
    (has_open
        (run
          (changes_tester (codes "b") ∷ socket_opens ∷ old_socket_closes 0 ∷ [])
          open_page).socket
      ≡ true)
    × ((run
          (changes_tester (codes "b") ∷ socket_opens ∷ old_socket_closes 0 ∷ [])
          open_page).is_connected
        ≡ false)
stale_flag_example = stale_flag ℕ open_page open_socket (codes "b") refl refl refl refl

-- A snapshot of a tester without paging, whose stages share a cause.
abbrev cause : Text → ℕ → TesterCauseCount
cause text n = record { cause = text; count = n }

abbrev stage : List TesterCauseCount → TesterStageSnapshot ℕ
stage causes = record {
  name = [];
  expected = 10;
  attempted = 10;
  retries = 0;
  in_flight = 0;
  accepted = 7;
  rejected = 2;
  timed_out = 1;
  failed = 0;
  skipped = 0;
  done = true;
  total_time_ms = 0;
  avg_ms = 0;
  p50_ms = 0;
  p95_ms = 0;
  p99_ms = 0;
  max_ms = 0;
  causes = causes;
}

abbrev stages : List (TesterStageSnapshot ℕ)
stages =
    stage (cause (codes "timeout") 1 ∷ cause (codes "refused") 2 ∷ [])
    ∷ stage (cause (codes "timeout") 4 ∷ [])
    ∷ []

merge_causes_lem_example :
    IsDescending (merge_causes (λ _ _. true) stages)
    × ((k : Text)
        → (entries_of k (merge_causes (λ _ _. true) stages) ≤ 1)
          × (count_of k (merge_causes (λ _ _. true) stages) ≡ count_of k (causes_of stages)))
merge_causes_lem_example = merge_causes_lem (λ _ _. true) stages

abbrev gnb : ℕ → Text → TesterGnbStatus ℕ
gnb i state = record {
  cp_ue_count = 0;
  index = i;
  name = [];
  gnb_id = [];
  n2_ip = [];
  n3_ip = [];
  ue_count = 1;
  ue_first = i;
  ue_last = i;
  first_supi = [];
  last_supi = [];
  state = state;
  attempts = 1;
  latency_ms = 0;
  cause = [];
  registered = 1;
  established = 1;
}

abbrev direction : TesterTrafficDirection ℕ
direction = record {
  tx_packets = 0;
  tx_bytes = 0;
  rx_packets = 0;
  rx_bytes = 0;
  tx_bps = 0;
  rx_bps = 0;
  tx_pps = 0;
  rx_pps = 0;
  loss_rate = 0;
  out_of_order = 0;
  send_errors = 0;
  misrouted = 0;
  latency = record { count = 0; avg_ms = 0; p50_ms = 0; p99_ms = 0; max_ms = 0 };
}

abbrev traffic : TesterGnbTraffic
traffic = record { ul_tx_bytes = 1; ul_rx_bytes = 2; dl_tx_bytes = 3; dl_rx_bytes = 4 }

abbrev snapshot : TesterRunSnapshot ℕ
snapshot = record {
  run_id = codes "r1";
  profile_name = codes "basic";
  state = running;
  error = [];
  started_at = none;
  stopped_at = none;
  n2 = stage [];
  registration = stage [];
  pdu = stage [];
  deregistration = stage [];
  n2_release = stage [];
  stop_reason = [];
  gnbs = gnb 1 (codes "up") ∷ gnb 2 (codes "lost") ∷ gnb 3 (codes "failed") ∷ [];
  gnb_total = none;
  gnb_offset = 0;
  gnb_counts = [];
  ues = record {
    pending = 0;
    registering = 0;
    registered = 1;
    establishing = 0;
    established = 1;
    failed = 0;
    skipped = 0;
    cancelled = 0;
    deregistering = 0;
    deregistered = 0;
  };
  failed_ues = [];
  dataplane = record {
    engine = codes "auto";
    active_ues = 1;
    ul = direction;
    dl = direction;
    gnbs = traffic ∷ record traffic { ul_tx_bytes = 9 } ∷ [];
    series = [];
  };
  cpus = record { cp_cpus = []; dp_cpus = [] };
  cp_loop = record {
    ues = 0;
    state = codes "off";
    started_at = none;
    duration_sec = 0;
    registered = 0;
    cycles = 0;
    registration = stage [];
    deregistration = stage [];
    cleanup = stage [];
    series = [];
  };
  setup = none;
}

-- The second gNB of the snapshot is the first one shown, with its own traffic.
lost_first :
    (pager 1 (codes "failed,lost") snapshot).items
    ≡ record { g = gnb 2 (codes "lost"); traffic = some (record traffic { ul_tx_bytes = 9 }) }
      ∷ record { g = gnb 3 (codes "failed"); traffic = none }
      ∷ []
unfolding pager gnb_pages split
lost_first = refl

pager-page_of_example :
    pager 1 (codes "failed,lost") snapshot
    ≡ page_of
        (map
          (with_traffic snapshot.dataplane.gnbs)
          (keep (is_wanted (codes "failed,lost")) snapshot.gnbs))
        1
        gnb_page_size
pager-page_of_example = pager-page_of 1 (codes "failed,lost") snapshot refl (omega arith)

at_traffic : pill_text (some snapshot) ≡ codes "Running " ++ 0xb7 ∷ codes " Traffic"
at_traffic = refl
