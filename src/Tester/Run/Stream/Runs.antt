-- ===== src/Tester/Run/Stream/Runs.antt =====
-- Invariants of the runs of the stream, as long as the page is open.
use mathlib.Core.Path.{subst}
use fru_lab.Prelude.{
  ◌≡◌, ◌⊎◌, inl, inr, refl, sym, ◌∙◌, Bool, true, false, Option, none, some, List, [], ◌∷◌,
  if◌then◌else◌,
}
use fru_lab.Tester.Run.Stream.{
  ReadyState, connecting, opened, closed, Socket, Stream, Event, socket_opens, socket_closes,
  timer_fires, page_closes, message, run_answered, old_socket_closes, shows_gnbs, changes_tester,
  connect, on_open, on_close, on_message, on_retry, with_socket, on_event, after_page, step, run,
}

module _ {S : Type 0} where
  mounted-with_socket :
      (f : ReadyState → Socket → Stream S → Stream S) (s : Stream S) (o : Option Socket)
      → ((phase : ReadyState) (x : Socket) → (f phase x s).is_mounted ≡ s.is_mounted)
      → (with_socket f o s).is_mounted ≡ s.is_mounted
  mounted-with_socket f s none keeps = refl
  mounted-with_socket f s (some x) keeps = keeps x.ready_state x

  mounted-on_open :
      (phase : ReadyState) (x : Socket) (s : Stream S)
      → (on_open phase x s).is_mounted ≡ s.is_mounted
  mounted-on_open connecting x s = refl
  mounted-on_open opened x s = refl
  mounted-on_open closed x s = refl

  mounted-on_close :
      (phase : ReadyState) (x : Socket) (s : Stream S)
      → (on_close phase x s).is_mounted ≡ s.is_mounted
  mounted-on_close connecting x s = refl
  mounted-on_close opened x s = refl
  mounted-on_close closed x s = refl

  mounted-on_message :
      (v : S) (phase : ReadyState) (x : Socket) (s : Stream S)
      → (on_message v phase x s).is_mounted ≡ s.is_mounted
  mounted-on_message v connecting x s = refl
  mounted-on_message v opened x s = refl
  mounted-on_message v closed x s = refl

  mounted-on_retry : (b : Bool) (s : Stream S) → (on_retry b s).is_mounted ≡ s.is_mounted
  unfolding connect
  mounted-on_retry true s = refl
  mounted-on_retry false s = refl

  -- A page that was left stays left.
  mounted-after_page : (e : Event S) (s : Stream S) → (after_page e s).is_mounted ≡ s.is_mounted
  mounted-after_page socket_opens s =
      mounted-with_socket on_open s s.socket (λ phase x. mounted-on_open phase x s)
  mounted-after_page socket_closes s =
      mounted-with_socket on_close s s.socket (λ phase x. mounted-on_close phase x s)
  mounted-after_page (message v) s =
      mounted-with_socket (on_message v) s s.socket (λ phase x. mounted-on_message v phase x s)
  mounted-after_page timer_fires s = mounted-on_retry s.retry_timer s
  mounted-after_page (run_answered v) s = refl
  mounted-after_page page_closes s = refl
  mounted-after_page (old_socket_closes k) s = refl
  mounted-after_page (shows_gnbs page states) s = refl
  mounted-after_page (changes_tester id) s = refl

  -- Each event of a run is one that is allowed where it happens.
  abbrev pub IsAllowed : (Event S → Stream S → Type 0) → List (Event S) → Stream S → Type 0
  IsAllowed Ok [] s = Unit
  IsAllowed Ok (e ∷ es) s = Ok e s × IsAllowed Ok es (step e s)

  -- What the allowed events keep as long as the page is open holds then, after every run of them.
  pub while_open :
      (Ok : Event S → Stream S → Type 0) (I : Stream S → Type 0)
      → ((e : Event S) (s : Stream S)
          → Ok e s
          → I s
          → ((on_event e s).is_mounted ≡ false) ⊎ I (on_event e s))
      → (es : List (Event S)) (s : Stream S) → IsAllowed Ok es s
      → (s.is_mounted ≡ false) ⊎ ((s.is_mounted ≡ true) × I s)
      → ((run es s).is_mounted ≡ false) ⊎ I (run es s)
  unfolding run step
  while_open Ok I keeps [] s ok (inl down) = inl down
  while_open Ok I keeps [] s ok (inr (up, h)) = inr h
  while_open Ok I keeps (e ∷ es) s (ok, oks) (inl down) =
      while_open Ok I keeps es (step e s) oks (inl stepped)
    where
      stepped : (step e s).is_mounted ≡ false
      stepped =
          subst (λ b. (if b then on_event e s else after_page e s).is_mounted ≡ false) (sym down)
            (mounted-after_page e s ∙ down)
  while_open Ok I keeps (e ∷ es) s (ok, oks) (inr (up, h)) =
      while_open Ok I keeps es (step e s) oks stepped
    where
      opened_or_not :
          (b : Bool)
          → (on_event e s).is_mounted ≡ b
          → ((on_event e s).is_mounted ≡ false) ⊎ I (on_event e s)
          → ((on_event e s).is_mounted ≡ false)
            ⊎ (((on_event e s).is_mounted ≡ true) × I (on_event e s))
      opened_or_not b e₁ (inl left) = inl left
      opened_or_not true e₁ (inr h₁) = inr (e₁, h₁)
      opened_or_not false e₁ (inr h₁) = inl e₁

      stepped : ((step e s).is_mounted ≡ false) ⊎ (((step e s).is_mounted ≡ true) × I (step e s))
      stepped =
          subst
            (λ b.
              ((if b then on_event e s else after_page e s).is_mounted ≡ false)
              ⊎ (((if b then on_event e s else after_page e s).is_mounted ≡ true)
                  × I (if b then on_event e s else after_page e s)))
            (sym up) (opened_or_not (on_event e s).is_mounted refl (keeps e s ok h))
