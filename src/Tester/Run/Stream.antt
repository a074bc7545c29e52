-- ===== src/Tester/Run/Stream.antt =====
-- The live updates of web/frontend/src/page/tester/TesterRunPage.tsx: one WebSocket while the page
-- is open, made again 2 s after it closes. What the browser and the user do is a list of events; an
-- event that cannot happen in a state does nothing. A socket that the page closes stays among the
-- `old` ones until its `close` event, and receives nothing more.
pub mod Live
pub mod Runs
pub mod Shown
pub mod Connected
pub mod Reconnects
use fru_lab.Prelude.{
  ℕ, zero, suc, ◌-◌, ◌*◌, Bool, true, false, Option, none, some, List, [], ◌∷◌, ◌++◌, if◌then◌else◌,
  take, drop,
}
use fru_lab.Js.Text.{Text}

abbrev pub gnb_page_size : ℕ
gnb_page_size = 50

pub record GnbQuery : Type 0 where
  pub gnb_offset : ℕ
  pub gnb_limit : ℕ
  pub gnb_state : Text

abbrev pub gnb_query : ℕ → Text → GnbQuery
gnb_query page states = record {
  gnb_offset = (page - 1) * gnb_page_size;
  gnb_limit = gnb_page_size;
  gnb_state = states;
}

pub data ReadyState : Type 0 where
  connecting opened closed : ReadyState

-- `told` is the page that the tester was last asked for on this socket.
pub record Socket : Type 0 where
  pub tester_id : Text
  pub ready_state : ReadyState
  pub told : GnbQuery

pub record Stream (S : Type 0) : Type 0 where
  pub is_mounted : Bool
  pub tester_id : Text
  pub snapshot : Option S
  pub is_connected : Bool
  pub gnb_page : ℕ
  pub gnb_states : Text
  pub query : GnbQuery
  pub socket : Option Socket
  pub retry_timer : Bool
  pub old : List Socket

pub data Event (S : Type 0) : Type 0 where
  socket_opens socket_closes timer_fires page_closes : Event S
  message run_answered : S → Event S
  old_socket_closes : ℕ → Event S
  shows_gnbs : ℕ → Text → Event S
  changes_tester : Text → Event S

abbrev pub is_opened : ReadyState → Bool
is_opened opened = true
is_opened connecting = false
is_opened closed = false

abbrev pub has_open : Option Socket → Bool
has_open none = false
has_open (some socket) = is_opened socket.ready_state

-- `socket?.close()`: a closed socket stays closed.
abbrev pub closing_in : ReadyState → Socket → List Socket
closing_in closed socket = []
closing_in connecting socket = socket ∷ []
closing_in opened socket = socket ∷ []

abbrev pub closing : Option Socket → List Socket
closing none = []
closing (some socket) = closing_in socket.ready_state socket

-- A query is sent to an open socket only.
abbrev pub sent_in : ReadyState → GnbQuery → Socket → Socket
sent_in opened query socket = record socket { told = query }
sent_in connecting query socket = socket
sent_in closed query socket = socket

abbrev pub sent : GnbQuery → Option Socket → Option Socket
sent query none = none
sent query (some socket) = some (sent_in socket.ready_state query socket)

abbrev pub without : ℕ → List Socket → List Socket
without k sockets = take k sockets ++ drop (suc k) sockets

abbrev pub is_at : ℕ → List Socket → Bool
is_at k [] = false
is_at zero (_ ∷ _) = true
is_at (suc k) (_ ∷ sockets) = is_at k sockets

module _ {S : Type 0} where
  -- The state before the effects of the page run.
  abbrev pub blank : Text → Stream S
  blank id = record {
    is_mounted = true;
    tester_id = id;
    snapshot = none;
    is_connected = false;
    gnb_page = 1;
    gnb_states = [];
    query = gnb_query 1 [];
    socket = none;
    retry_timer = false;
    old = [];
  }

  unfoldable pub connect : Stream S → Stream S
  connect s = record s {
    socket = some (record { tester_id = s.tester_id; ready_state = connecting; told = s.query });
  }

  unfoldable pub enter : Text → Stream S
  unfolding connect
  enter id = connect (blank id)

  -- The clean-up of the effect: the timer, the socket and its reference.
  unfoldable pub disconnect : Stream S → Stream S
  disconnect s = record s { retry_timer = false; socket = none; old = s.old ++ closing s.socket }

  -- The effects of another tester: the view is reset before the stream connects.
  unfoldable pub change_tester : Text → Stream S → Stream S
  change_tester id s =
      let s₁ = disconnect s in
      connect (record s₁ {
        tester_id = id;
        snapshot = none;
        gnb_page = 1;
        gnb_states = [];
        query = gnb_query 1 [];
      })

  unfoldable pub show_gnbs : ℕ → Text → Stream S → Stream S
  show_gnbs page states s = record s {
    gnb_page = page;
    gnb_states = states;
    query = gnb_query page states;
    socket = sent (gnb_query page states) s.socket;
  }

  abbrev pub with_state : ReadyState → Socket → Stream S → Stream S
  with_state phase socket s = record s { socket = some (record socket { ready_state = phase }) }

  abbrev pub on_open : ReadyState → Socket → Stream S → Stream S
  on_open connecting socket s = record (with_state opened socket s) { is_connected = true }
  on_open opened socket s = s
  on_open closed socket s = s

  -- `onclose` of the page's socket: the page is open, so it will connect again.
  abbrev pub on_close : ReadyState → Socket → Stream S → Stream S
  on_close closed socket s = s
  on_close connecting socket s = record (with_state closed socket s) {
    is_connected = false;
    retry_timer = true;
  }
  on_close opened socket s = record (with_state closed socket s) {
    is_connected = false;
    retry_timer = true;
  }

  abbrev pub on_message : S → ReadyState → Socket → Stream S → Stream S
  on_message v opened socket s = record s { snapshot = some v }
  on_message v connecting socket s = s
  on_message v closed socket s = s

  abbrev pub with_socket :
      (ReadyState → Socket → Stream S → Stream S) → Option Socket → Stream S → Stream S
  with_socket f none s = s
  with_socket f (some socket) s = f socket.ready_state socket s

  abbrev pub on_retry : Bool → Stream S → Stream S
  on_retry false s = s
  on_retry true s = connect (record s { retry_timer = false })

  -- One event on an open page.
  abbrev pub on_event : Event S → Stream S → Stream S
  on_event socket_opens s = with_socket on_open s.socket s
  on_event socket_closes s = with_socket on_close s.socket s
  on_event (message v) s = with_socket (on_message v) s.socket s
  -- The run that the page asks for when it shows a tester; a rejection is told and changes nothing.
  on_event (run_answered v) s = record s { snapshot = some v }
  on_event timer_fires s = on_retry s.retry_timer s
  -- `onclose` of a socket that the page closed.
  on_event (old_socket_closes k) s =
      if is_at k s.old then record s { old = without k s.old; is_connected = false } else s
  on_event (shows_gnbs page states) s = show_gnbs page states s
  on_event (changes_tester id) s = change_tester id s
  on_event page_closes s = record (disconnect s) { is_mounted = false }

  -- Behind the clean-up the only events are those of old sockets, whose state nobody sees.
  abbrev pub after_page : Event S → Stream S → Stream S
  after_page (old_socket_closes k) s = record s { old = without k s.old }
  after_page socket_opens s = with_socket on_open s.socket s
  after_page socket_closes s = with_socket on_close s.socket s
  after_page (message v) s = with_socket (on_message v) s.socket s
  after_page (run_answered v) s = s
  after_page timer_fires s = on_retry s.retry_timer s
  after_page (shows_gnbs page states) s = s
  after_page (changes_tester id) s = s
  after_page page_closes s = s

  unfoldable pub step : Event S → Stream S → Stream S
  step e s = if s.is_mounted then on_event e s else after_page e s

  unfoldable pub run : List (Event S) → Stream S → Stream S
  run [] s = s
  run (e ∷ es) s = run es (step e s)
