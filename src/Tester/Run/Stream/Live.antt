-- ===== src/Tester/Run/Stream/Live.antt =====
-- The stream comes back as long as the page is open, and does not after it.
use mathlib.Core.Path.{subst}
use fru_lab.Prelude.{
  ◌≡◌, ◌⊎◌, inl, inr, refl, sym, ap, ◌∙◌, Bool, true, false, not, Option, none, some, List, [], ◌∷◌,
  if◌then◌else◌, Bool-cases, Option-cases,
}
use fru_lab.Js.Text.{Text}
use fru_lab.Tester.Run.Stream.{
  GnbQuery, ReadyState, connecting, opened, closed, Socket, Stream, Event, socket_opens,
  socket_closes, timer_fires, page_closes, message, run_answered, old_socket_closes, shows_gnbs,
  changes_tester, enter, connect, disconnect, change_tester, sent, sent_in, show_gnbs, is_at,
  on_open, on_close, on_message, on_retry, with_socket, on_event, after_page, step, run,
}

-- A socket whose `close` event is still to come.
abbrev pub is_live_in : ReadyState → Bool
is_live_in closed = false
is_live_in connecting = true
is_live_in opened = true

abbrev pub is_live : Option Socket → Bool
is_live none = false
is_live (some socket) = is_live_in socket.ready_state

is_live-sent_in :
    (phase : ReadyState) (q : GnbQuery) (socket : Socket)
    → socket.ready_state ≡ phase
    → is_live_in (sent_in phase q socket).ready_state ≡ is_live_in phase
is_live-sent_in opened q socket e = ap is_live_in e
is_live-sent_in connecting q socket e = ap is_live_in e
is_live-sent_in closed q socket e = ap is_live_in e

is_live-sent : (q : GnbQuery) (socket : Option Socket) → is_live (sent q socket) ≡ is_live socket
is_live-sent q none = refl
is_live-sent q (some socket) = is_live-sent_in socket.ready_state q socket refl

module _ {S : Type 0} where
  -- An open page: there is either a socket that will close or a timer that will connect.
  abbrev pub IsUp : Stream S → Type 0
  IsUp s = (s.is_mounted ≡ true) × (s.retry_timer ≡ not (is_live s.socket))

  -- A page that was left: there is neither.
  abbrev pub IsDown : Stream S → Type 0
  IsDown s = (s.is_mounted ≡ false) × (s.retry_timer ≡ false) × (s.socket ≡ none)

  IsUp-on_open :
      (phase : ReadyState) (socket : Socket) (s : Stream S)
      → s.is_mounted ≡ true
      → s.retry_timer ≡ not (is_live_in phase)
      → s.socket ≡ some socket
      → socket.ready_state ≡ phase
      → IsUp (on_open phase socket s)
  IsUp-on_open connecting socket s up timer there e = (up, timer)
  IsUp-on_open opened socket s up timer there e =
      (up, timer ∙ ap not (sym (ap is_live there ∙ ap is_live_in e)))
  IsUp-on_open closed socket s up timer there e =
      (up, timer ∙ ap not (sym (ap is_live there ∙ ap is_live_in e)))

  IsUp-on_close :
      (phase : ReadyState) (socket : Socket) (s : Stream S)
      → s.is_mounted ≡ true
      → s.retry_timer ≡ not (is_live_in phase)
      → s.socket ≡ some socket
      → socket.ready_state ≡ phase
      → IsUp (on_close phase socket s)
  IsUp-on_close connecting socket s up timer there e = (up, refl)
  IsUp-on_close opened socket s up timer there e = (up, refl)
  IsUp-on_close closed socket s up timer there e =
      (up, timer ∙ ap not (sym (ap is_live there ∙ ap is_live_in e)))

  IsUp-on_message :
      (v : S) (phase : ReadyState) (socket : Socket) (s : Stream S)
      → IsUp s
      → IsUp (on_message v phase socket s)
  IsUp-on_message v connecting socket s h = h
  IsUp-on_message v opened socket s h = h
  IsUp-on_message v closed socket s h = h

  IsUp-on_retry : (b : Bool) (s : Stream S) → IsUp s → IsUp (on_retry b s)
  unfolding connect
  IsUp-on_retry true s (up, timer) = (up, refl)
  IsUp-on_retry false s h = h

  IsUp-with_socket :
      (f : ReadyState → Socket → Stream S → Stream S) (s : Stream S)
      → ((phase : ReadyState) (socket : Socket)
          → s.retry_timer ≡ not (is_live_in phase)
          → s.socket ≡ some socket
          → socket.ready_state ≡ phase
          → IsUp (f phase socket s))
      → IsUp s
      → IsUp (with_socket f s.socket s)
  IsUp-with_socket f s keeps (up, timer) = elim (Option-cases s.socket) [
    | inl e ↦ subst (λ o. IsUp (with_socket f o s)) (sym e) (up, timer)
    | inr (socket, e) ↦
        subst (λ o. IsUp (with_socket f o s)) (sym e)
          (keeps socket.ready_state socket (timer ∙ ap (λ o. not (is_live o)) e) e refl)
  ]

  pub IsUp-on_event :
      (e : Event S) (s : Stream S) → IsUp s → IsUp (on_event e s) ⊎ IsDown (on_event e s)
  unfolding connect disconnect change_tester show_gnbs
  IsUp-on_event socket_opens s (up, timer) =
      inl (
        IsUp-with_socket on_open s (λ phase socket t. IsUp-on_open phase socket s up t) (up, timer))
  IsUp-on_event socket_closes s (up, timer) = inl (
      IsUp-with_socket on_close s (λ phase socket t. IsUp-on_close phase socket s up t) (up, timer))
  IsUp-on_event (message v) s h = inl (
      IsUp-with_socket (on_message v) s (λ phase socket _ _ _. IsUp-on_message v phase socket s h)
        h)
  IsUp-on_event (run_answered v) s h = inl h
  IsUp-on_event timer_fires s h = inl (IsUp-on_retry s.retry_timer s h)
  IsUp-on_event page_closes s h = inr (refl, refl, refl)
  IsUp-on_event (old_socket_closes k) s h = elim (Bool-cases (is_at k s.old)) [
    | inl e ↦ rw (e) (inl h)
    | inr e ↦ rw (e) (inl h)
  ]
  IsUp-on_event (shows_gnbs page states) s (up, timer) =
      inl (up, timer ∙ ap not (sym (is_live-sent _ s.socket)))
  IsUp-on_event (changes_tester id) s (up, timer) = inl (up, refl)

  IsDown-after_page : (e : Event S) (s : Stream S) → IsDown s → IsDown (after_page e s)
  IsDown-after_page socket_opens s (down, timer, gone) =
      subst (λ o. IsDown (with_socket on_open o s)) (sym gone) (down, timer, gone)
  IsDown-after_page socket_closes s (down, timer, gone) =
      subst (λ o. IsDown (with_socket on_close o s)) (sym gone) (down, timer, gone)
  IsDown-after_page (message v) s (down, timer, gone) =
      subst (λ o. IsDown (with_socket (on_message v) o s)) (sym gone) (down, timer, gone)
  IsDown-after_page (run_answered v) s h = h
  IsDown-after_page timer_fires s (down, timer, gone) =
      subst (λ b. IsDown (on_retry b s)) (sym timer) (down, timer, gone)
  IsDown-after_page page_closes s h = h
  IsDown-after_page (old_socket_closes k) s h = h
  IsDown-after_page (shows_gnbs page states) s h = h
  IsDown-after_page (changes_tester id) s h = h

  abbrev pub IsLive : Stream S → Type 0
  IsLive s = IsUp s ⊎ IsDown s

  IsLive-step : (e : Event S) (s : Stream S) → IsLive s → IsLive (step e s)
  unfolding step
  IsLive-step e s (inl (up, timer)) =
      subst (λ b. IsLive (if b then on_event e s else after_page e s)) (sym up)
        (IsUp-on_event e s (up, timer))
  IsLive-step e s (inr (down, timer, gone)) =
      subst (λ b. IsLive (if b then on_event e s else after_page e s)) (sym down)
        (inr (IsDown-after_page e s (down, timer, gone)))

  pub IsLive-run : (es : List (Event S)) (s : Stream S) → IsLive s → IsLive (run es s)
  unfolding run
  IsLive-run [] s h = h
  IsLive-run (e ∷ es) s h = IsLive-run es (step e s) (IsLive-step e s h)

IsLive-enter : (S : Type 0) (id : Text) → IsLive {S = S} (enter id)
unfolding enter connect
IsLive-enter S id = inl (refl, refl)

-- Whatever happens, an open page has either a socket that is not closed or the timer that makes a
-- new one, never both; and a page that was left has neither, so it never connects again.
pub stream-IsLive : (S : Type 0) (id : Text) (es : List (Event S)) → IsLive (run es (enter id))
stream-IsLive S id es = IsLive-run es (enter id) (IsLive-enter S id)
