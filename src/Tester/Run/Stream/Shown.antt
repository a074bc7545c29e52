-- ===== src/Tester/Run/Stream/Shown.antt =====
-- What the page says of the stream, and which gNBs the stream carries.
use mathlib.Core.Path.{subst}
use fru_lab.Prelude.{
  ◌≡◌, ◌⊎◌, inl, inr, refl, sym, ◌∙◌, Bool, true, false, Option, none, some, List, if◌then◌else◌,
  Option-cases,
}
use fru_lab.Js.Text.{Text}
use fru_lab.Tester.Run.Stream.{
  GnbQuery, ReadyState, connecting, opened, closed, Socket, Stream, Event, socket_opens,
  socket_closes, timer_fires, page_closes, message, run_answered, old_socket_closes, shows_gnbs,
  changes_tester, is_opened, enter, connect, disconnect, change_tester, sent, sent_in, show_gnbs,
  is_at, without, on_open, on_close, on_message, on_retry, with_socket, on_event, run, gnb_query,
}
use fru_lab.Tester.Run.Stream.Runs.{IsAllowed, while_open}

-- A socket that is not closed was told this page.
abbrev IsToldIn : ReadyState → GnbQuery → Socket → Type 0
IsToldIn closed q x = Unit
IsToldIn connecting q x = x.told ≡ q
IsToldIn opened q x = x.told ≡ q

abbrev IsTold : GnbQuery → Option Socket → Type 0
IsTold q none = Unit
IsTold q (some x) = IsToldIn x.ready_state q x

abbrev pub is_connecting_in : ReadyState → Bool
is_connecting_in connecting = true
is_connecting_in opened = false
is_connecting_in closed = false

abbrev pub is_connecting : Option Socket → Bool
is_connecting none = false
is_connecting (some x) = is_connecting_in x.ready_state

IsTold-sent : (q : GnbQuery) (o : Option Socket) → is_connecting o ≡ false → IsTold q (sent q o)
IsTold-sent q none h = tt
IsTold-sent q (some x) h = go x.ready_state refl h
  where
    go :
        (phase : ReadyState)
        → x.ready_state ≡ phase
        → is_connecting_in phase ≡ false
        → IsTold q (some (sent_in phase q x))
    go opened e h = subst (λ phase. IsToldIn phase q (sent_in opened q x)) (sym e) refl
    go closed e h = subst (λ phase. IsToldIn phase q x) (sym e) tt
    go connecting e h = absurd cc

module _ {S : Type 0} where
  -- Every event, but a choice of gNBs while a socket connects.
  abbrev pub IsCalm : Event S → Stream S → Type 0
  IsCalm (shows_gnbs page states) s = is_connecting s.socket ≡ false
  IsCalm socket_opens s = Unit
  IsCalm socket_closes s = Unit
  IsCalm timer_fires s = Unit
  IsCalm page_closes s = Unit
  IsCalm (message v) s = Unit
  IsCalm (run_answered v) s = Unit
  IsCalm (old_socket_closes k) s = Unit
  IsCalm (changes_tester id) s = Unit

  abbrev IsShown : Stream S → Type 0
  IsShown s = (s.query ≡ gnb_query s.gnb_page s.gnb_states) × IsTold s.query s.socket

  IsShown-with_socket :
      (f : ReadyState → Socket → Stream S → Stream S) (s : Stream S)
      → ((phase : ReadyState) (x : Socket)
          → IsToldIn phase s.query x
          → x.ready_state ≡ phase
          → s.socket ≡ some x
          → IsShown s
          → IsShown (f phase x s))
      → IsShown s
      → IsShown (with_socket f s.socket s)
  IsShown-with_socket f s keeps (same, told) = elim (Option-cases s.socket) [
    | inl e ↦ subst (λ o. IsShown (with_socket f o s)) (sym e) (same, told)
    | inr (x, e) ↦
        subst (λ o. IsShown (with_socket f o s)) (sym e)
          (keeps x.ready_state x (subst (IsTold s.query) e told) refl e (same, told))
  ]

  IsShown-on_open :
      (s : Stream S) (phase : ReadyState) (x : Socket)
      → IsToldIn phase s.query x
      → IsShown s
      → IsShown (on_open phase x s)
  IsShown-on_open s connecting x told (same, _) = (same, told)
  IsShown-on_open s opened x told h = h
  IsShown-on_open s closed x told h = h

  IsShown-on_close :
      (s : Stream S) (phase : ReadyState) (x : Socket) → IsShown s → IsShown (on_close phase x s)
  IsShown-on_close s connecting x (same, _) = (same, tt)
  IsShown-on_close s opened x (same, _) = (same, tt)
  IsShown-on_close s closed x h = h

  IsShown-on_message :
      (v : S) (s : Stream S) (phase : ReadyState) (x : Socket)
      → IsShown s
      → IsShown (on_message v phase x s)
  IsShown-on_message v s connecting x h = h
  IsShown-on_message v s opened x h = h
  IsShown-on_message v s closed x h = h

  IsShown-on_retry : (b : Bool) (s : Stream S) → IsShown s → IsShown (on_retry b s)
  unfolding connect
  IsShown-on_retry true s (same, _) = (same, refl)
  IsShown-on_retry false s h = h

  IsShown-on_event :
      (e : Event S) (s : Stream S)
      → IsCalm e s
      → IsShown s
      → ((on_event e s).is_mounted ≡ false) ⊎ IsShown (on_event e s)
  unfolding connect disconnect change_tester show_gnbs
  IsShown-on_event socket_opens s calm h =
      inr (IsShown-with_socket on_open s (λ phase x told _ _. IsShown-on_open s phase x told) h)
  IsShown-on_event socket_closes s calm h =
      inr (IsShown-with_socket on_close s (λ phase x _ _ _. IsShown-on_close s phase x) h)
  IsShown-on_event (message v) s calm h =
      inr (IsShown-with_socket (on_message v) s (λ phase x _ _ _. IsShown-on_message v s phase x) h)
  IsShown-on_event timer_fires s calm h = inr (IsShown-on_retry s.retry_timer s h)
  IsShown-on_event (run_answered v) s calm h = inr h
  IsShown-on_event page_closes s calm h = inl refl
  IsShown-on_event (old_socket_closes k) s calm h = inr (go (is_at k s.old))
    where
      go :
          (b : Bool)
          → IsShown (if b then record s { old = without k s.old; is_connected = false } else s)
      go true = h
      go false = h
  IsShown-on_event (shows_gnbs page states) s calm h =
      inr (refl, IsTold-sent (gnb_query page states) s.socket calm)
  IsShown-on_event (changes_tester id) s calm h = inr (refl, refl)

-- If the user chose no gNBs while a socket was connecting, the tester was last asked, on every
-- socket that is open, for the page and the filter that are shown.
pub stream_query :
    (S : Type 0) (id : Text) (es : List (Event S))
    → IsAllowed IsCalm es (enter id)
    → ((run es (enter id)).is_mounted ≡ true)
    → (x : Socket) → (run es (enter id)).socket ≡ some x
    → is_opened x.ready_state ≡ true
    → x.told ≡ gnb_query (run es (enter id)).gnb_page (run es (enter id)).gnb_states
unfolding enter connect
stream_query S id es calm up x there on =
    elim (while_open IsCalm IsShown IsShown-on_event es (enter id) calm
      (inr (refl, (refl, refl)))) [
        | inl down ↦ absurd cc
        | inr (same, told) ↦ go x.ready_state on (subst (IsTold _) there told) ∙ same
      ]
  where
    go :
        (phase : ReadyState)
        → is_opened phase ≡ true
        → IsToldIn phase (run es (enter id)).query x
        → x.told ≡ (run es (enter id)).query
    go opened _ e = e
    go connecting h e = absurd cc
    go closed h e = absurd cc
