-- ===== src/Tester/Run/Stream/Connected.antt =====
-- When "Live updates disconnected" is shown, and what the tester is told.
use mathlib.Core.Path.{subst}
use fru_lab.Prelude.{
  ℕ, ◌≡◌, ◌⊎◌, inl, inr, refl, sym, ap, ◌∙◌, Bool, true, false, not, Option, none, some, List, [],
  ◌∷◌, if◌then◌else◌,
}
use fru_lab.Js.Text.{Text}
use fru_lab.Tester.Run.Stream.{
  ReadyState, connecting, opened, closed, Socket, Stream, Event, socket_opens, socket_closes,
  timer_fires, page_closes, message, run_answered, old_socket_closes, shows_gnbs, changes_tester,
  is_opened, has_open, enter, connect, disconnect, change_tester, sent, sent_in, show_gnbs,
  closing_in, closing, is_at, without, on_open, on_close, on_message, on_retry, with_socket,
  on_event, after_page, step, run, gnb_query, GnbQuery,
}
use fru_lab.Tester.Run.Stream.Runs.{IsAllowed, while_open}
use fru_lab.Tester.Run.Stream.Live.{IsUp, IsUp-on_event, is_live, is_live_in}

is_opened-sent_in :
    (phase : ReadyState) (x : Socket) (q : GnbQuery)
    → x.ready_state ≡ phase
    → is_opened (sent_in phase q x).ready_state ≡ is_opened phase
is_opened-sent_in opened x q e = ap is_opened e
is_opened-sent_in connecting x q e = ap is_opened e
is_opened-sent_in closed x q e = ap is_opened e

has_open-sent : (q : GnbQuery) (o : Option Socket) → has_open (sent q o) ≡ has_open o
has_open-sent q none = refl
has_open-sent q (some x) = is_opened-sent_in x.ready_state x q refl

not_open_in : (phase : ReadyState) → not (is_live_in phase) ≡ true → false ≡ is_opened phase
not_open_in closed h = refl
not_open_in connecting h = cc
not_open_in opened h = cc

not_open_of_not_live : (o : Option Socket) → not (is_live o) ≡ true → has_open o ≡ false
not_open_of_not_live none h = refl
not_open_of_not_live (some x) h = sym (not_open_in x.ready_state h)

module _ {S : Type 0} where
  -- Every event of one tester's page.
  abbrev pub IsOfOneTester : Event S → Stream S → Type 0
  IsOfOneTester (changes_tester id) s = ⊥
  IsOfOneTester (shows_gnbs page states) s = Unit
  IsOfOneTester socket_opens s = Unit
  IsOfOneTester socket_closes s = Unit
  IsOfOneTester timer_fires s = Unit
  IsOfOneTester page_closes s = Unit
  IsOfOneTester (message v) s = Unit
  IsOfOneTester (run_answered v) s = Unit
  IsOfOneTester (old_socket_closes k) s = Unit

  -- The flag says whether the socket is open, and no former socket will change it.
  abbrev IsTrue : Stream S → Type 0
  IsTrue s = (s.is_connected ≡ has_open s.socket) × (s.old ≡ [])

  IsTrue-with_socket :
      (f : ReadyState → Socket → Stream S → Stream S) (s : Stream S)
      → ((phase : ReadyState) (x : Socket) → IsTrue s → IsTrue (f phase x s))
      → IsTrue s
      → IsTrue (with_socket f s.socket s)
  IsTrue-with_socket f s keeps h = go s.socket
    where
      go : (o : Option Socket) → IsTrue (with_socket f o s)
      go none = h
      go (some x) = keeps x.ready_state x h

  IsTrue-on_open :
      (s : Stream S) (phase : ReadyState) (x : Socket) → IsTrue s → IsTrue (on_open phase x s)
  IsTrue-on_open s connecting x (flag, empty) = (refl, empty)
  IsTrue-on_open s opened x h = h
  IsTrue-on_open s closed x h = h

  IsTrue-on_close :
      (s : Stream S) (phase : ReadyState) (x : Socket) → IsTrue s → IsTrue (on_close phase x s)
  IsTrue-on_close s connecting x (flag, empty) = (refl, empty)
  IsTrue-on_close s opened x (flag, empty) = (refl, empty)
  IsTrue-on_close s closed x h = h

  IsTrue-on_message :
      (v : S) (s : Stream S) (phase : ReadyState) (x : Socket)
      → IsTrue s
      → IsTrue (on_message v phase x s)
  IsTrue-on_message v s connecting x h = h
  IsTrue-on_message v s opened x h = h
  IsTrue-on_message v s closed x h = h

  IsTrue-on_retry :
      (b : Bool) (s : Stream S) → s.retry_timer ≡ b → IsUp s → IsTrue s → IsTrue (on_retry b s)
  unfolding connect
  IsTrue-on_retry true s set (up, timer) (flag, empty) =
      (flag ∙ not_open_of_not_live s.socket (sym timer ∙ set), empty)
  IsTrue-on_retry false s set up h = h

  IsTrue-on_event :
      (e : Event S) (s : Stream S)
      → IsOfOneTester e s
      → IsUp s
      → IsTrue s
      → IsTrue (on_event e s) ⊎ ((on_event e s).is_mounted ≡ false)
  unfolding connect disconnect show_gnbs
  IsTrue-on_event socket_opens s one up h = inl (IsTrue-with_socket on_open s (IsTrue-on_open s) h)
  IsTrue-on_event socket_closes s one up h =
      inl (IsTrue-with_socket on_close s (IsTrue-on_close s) h)
  IsTrue-on_event (message v) s one up h =
      inl (IsTrue-with_socket (on_message v) s (IsTrue-on_message v s) h)
  IsTrue-on_event timer_fires s one up h = inl (IsTrue-on_retry s.retry_timer s refl up h)
  IsTrue-on_event (run_answered v) s one up h = inl h
  IsTrue-on_event page_closes s one up h = inr refl
  IsTrue-on_event (old_socket_closes k) s one up (flag, empty) = inl (
      subst
        (λ o.
          IsTrue
            (if is_at k o then record s { old = without k s.old; is_connected = false } else s))
        (sym empty) (flag, empty))
  IsTrue-on_event (shows_gnbs page states) s one up (flag, empty) =
      inl (flag ∙ sym (has_open-sent (gnb_query page states) s.socket), empty)
  IsTrue-on_event (changes_tester id) s one up h = absurd one

  keeps_flag :
      (e : Event S) (s : Stream S)
      → IsOfOneTester e s
      → IsUp s × IsTrue s
      → ((on_event e s).is_mounted ≡ false) ⊎ (IsUp (on_event e s) × IsTrue (on_event e s))
  keeps_flag e s one (up, flag) = elim (IsUp-on_event e s up) [
    | inr (down, _, _) ↦ inl down
    | inl still ↦ elim (IsTrue-on_event e s one up flag) [
      | inl good ↦ inr (still, good)
      | inr down ↦ inl down
    ]
  ]

-- On the page of one tester, "Live updates disconnected" is shown exactly while no socket is open.
pub stream_connected :
    (S : Type 0) (id : Text) (es : List (Event S))
    → IsAllowed IsOfOneTester es (enter id)
    → ((run es (enter id)).is_mounted ≡ true)
    → (run es (enter id)).is_connected ≡ has_open (run es (enter id)).socket
unfolding enter connect
stream_connected S id es one up =
    elim (while_open IsOfOneTester (λ s. IsUp s × IsTrue s) keeps_flag es (enter id) one
      (inr (refl, ((refl, refl), (refl, refl))))) [
        | inl down ↦ absurd cc
        | inr (_, (flag, _)) ↦ flag
      ]

pub step_up :
    {S : Type 0} (e : Event S) (s : Stream S) → s.is_mounted ≡ true → step e s ≡ on_event e s
unfolding step
step_up e s up = ap (λ b. if b then on_event e s else after_page e s) up

-- After another tester is chosen while the stream is open, its own stream may open before the
-- socket of the former one is closed; then the page says that live updates are disconnected
-- although its socket is open.
pub stale_flag :
    (S : Type 0) (s : Stream S) (x : Socket) (id : Text)
    → s.is_mounted ≡ true
    → s.socket ≡ some x
    → x.ready_state ≡ opened
    → s.old ≡ []
    → let t = run (changes_tester id ∷ socket_opens ∷ old_socket_closes 0 ∷ []) s in
      (has_open t.socket ≡ true) × (t.is_connected ≡ false)
unfolding run step connect disconnect change_tester
stale_flag S s x id up there on empty =
    rw (up, step) (rw (there, closing) (rw (on, empty, closing_in) (refl, refl)))

-- If the user chooses gNBs while a socket is connecting, that socket opens with the page that was
-- asked for before, and nobody tells the tester the one that is shown.
pub stale_page :
    (S : Type 0) (s : Stream S) (x : Socket) (page : ℕ) (states : Text)
    → s.is_mounted ≡ true
    → s.socket ≡ some x
    → x.ready_state ≡ connecting
    → let t = run (shows_gnbs page states ∷ socket_opens ∷ []) s in
      (t.query ≡ gnb_query page states) × (t.socket ≡ some (record x { ready_state = opened }))
unfolding run step show_gnbs
stale_page S s x page states up there on =
    rw (up, step) (rw (there, sent) (rw (on, sent_in) (refl, refl)))
