-- ===== src/Tester/Run/Stream/Reconnects.antt =====
-- The way back to a connection.
use fru_lab.Prelude.{
  ◌≤◌, ◌≡◌, inl, inr, refl, ap, ◌∙◌, true, not, some, List, [], ◌∷◌, arith, length, Option-cases,
}
use fru_lab.Js.Text.{Text}
use fru_lab.Tester.Run.Stream.{
  ReadyState, connecting, opened, closed, Socket, Stream, Event, socket_opens, socket_closes,
  timer_fires, page_closes, message, run_answered, old_socket_closes, shows_gnbs, changes_tester,
  has_open, enter, connect, on_open, on_retry, with_socket, step, run,
}
use fru_lab.Tester.Run.Stream.Runs.{IsAllowed}
use fru_lab.Tester.Run.Stream.Live.{is_live, is_live_in, stream-IsLive}

-- What the page itself has asked the browser for: the timer that it has set, and the connection of
-- a socket that it has made. No event of the user, nor of the tester, is one.
abbrev pub IsDue : {S : Type 0} → Event S → Stream S → Type 0
IsDue timer_fires s = s.retry_timer ≡ true
IsDue socket_opens s = (x : Socket) × (s.socket ≡ some x) × (x.ready_state ≡ connecting)
IsDue socket_closes s = ⊥
IsDue page_closes s = ⊥
IsDue (message v) s = ⊥
IsDue (run_answered v) s = ⊥
IsDue (old_socket_closes k) s = ⊥
IsDue (shows_gnbs page states) s = ⊥
IsDue (changes_tester id) s = ⊥

-- Events that are due, two at most, end with an open socket.
abbrev pub LeadsBack : {S : Type 0} → Stream S → List (Event S) → Type 0
LeadsBack s more =
    IsAllowed IsDue more s × (length more ≤ 2) × (has_open (run more s).socket ≡ true)

LeadsBack-timer :
    {S : Type 0} (s : Stream S)
    → s.is_mounted ≡ true
    → s.retry_timer ≡ true
    → LeadsBack s (timer_fires ∷ socket_opens ∷ [])
unfolding run step connect
LeadsBack-timer s up timer = (
  (
    timer,
    (
      rw (up, step)
          (rw (timer, on_retry)
            (
              record { tester_id = s.tester_id; ready_state = connecting; told = s.query },
              refl,
              refl,
            )),
      tt,
    ),
  ),
  omega arith,
  rw (up, step) (rw (timer, on_retry) refl),
)

LeadsBack-back_in :
    {S : Type 0} (s : Stream S) (x : Socket) (phase : ReadyState)
    → s.is_mounted ≡ true
    → s.socket ≡ some x
    → x.ready_state ≡ phase
    → s.retry_timer ≡ not (is_live_in phase)
    → (more : List (Event S)) × LeadsBack s more
unfolding run step connect
LeadsBack-back_in s x opened up there on timer =
    ([], (tt, omega arith, rw (there, has_open) (rw (on) refl)))
LeadsBack-back_in s x connecting up there on timer = (
  socket_opens ∷ [],
  (
    ((x, there, on), tt),
    omega arith,
    rw (up, step) (rw (there, with_socket) (rw (on, on_open) refl)),
  ),
)
LeadsBack-back_in s x closed up there on timer =
    (timer_fires ∷ socket_opens ∷ [], LeadsBack-timer s up timer)

-- Whatever happened to an open page, at most two events that it has asked for itself, the timer
-- that it has set and the connection of the socket that it has made, bring it to an open socket.
pub stream_reconnects :
    (S : Type 0) (id : Text) (es : List (Event S))
    → (run es (enter id)).is_mounted ≡ true
    → (more : List (Event S)) × LeadsBack (run es (enter id)) more
stream_reconnects S id es up = elim (stream-IsLive S id es) [
  | inr (down, _, _) ↦ absurd cc
  | inl (_, timer) ↦
      let s = run es (enter id) in
      elim (Option-cases s.socket) [
        | inl e ↦ (
          timer_fires ∷ socket_opens ∷ [],
          LeadsBack-timer s up (timer ∙ ap (λ o. not (is_live o)) e),
        )
        | inr (x, e) ↦
            LeadsBack-back_in s x x.ready_state up e refl (timer ∙ ap (λ o. not (is_live o)) e)
      ]
]
