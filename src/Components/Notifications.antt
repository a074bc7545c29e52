-- ===== src/Components/Notifications.antt =====
-- web/frontend/src/hooks/useNotifications.ts: the list of notifications as the state of the hook.
-- The clock is an argument: `now` is what `Date.now()` returns for the id, `shown` what it returns
-- for the time stamp. The id is the decimal numeral of `now`.
use fru_lab.Prelude.{
  ℕ, ◌+◌, ◌≡◌, ◌≢◌, refl, ◌∙◌, Bool, true, false, not, List, [], ◌∷◌, ◌++◌, arith, keep, length,
  append-nil, All, All-append,
}
use mathlib.Core.Path.{ap₂}
use fru_lab.Js.Text.{Text, text_eq, text_eq_iff, text_eq_ne}
use fru_lab.Js.Decimal.{decimal, decimal-injective}

pub data Kind : Type 0 where
  error success : Kind

pub record NotificationItem : Type 0 where
  pub id : Text
  pub message : Text
  pub timestamp : ℕ
  pub kind : Kind

abbrev pub is_error : Kind → Bool
is_error error = true
is_error success = false

-- `addNotification`: the new state and the id that it returns.
unfoldable pub add_notification :
    ℕ → ℕ → Text → Kind → List NotificationItem → List NotificationItem × Text
add_notification now shown message kind prev =
    let id = decimal now in
    (prev ++ record { id = id; message = message; timestamp = shown; kind = kind } ∷ [], id)

unfoldable pub remove_notification : Text → List NotificationItem → List NotificationItem
remove_notification id = keep (λ n. not (text_eq n.id id))

unfoldable pub errors_of : List NotificationItem → List NotificationItem
errors_of = keep (λ n. is_error n.kind)

unfoldable pub successes_of : List NotificationItem → List NotificationItem
successes_of = keep (λ n. not (is_error n.kind))

-- Every notification is shown in exactly one of the two lists.
pub errors_successes_lem :
    (prev : List NotificationItem)
    → length (errors_of prev) + length (successes_of prev) ≡ length prev
unfolding errors_of successes_of
errors_successes_lem [] = omega arith
errors_successes_lem (n ∷ prev) = ground (arith, errors_successes_lem prev)

-- None of the notifications has the id.
abbrev pub IsFresh : Text → List NotificationItem → Type 0
IsFresh id = All (λ n. text_eq n.id id ≡ false)

keep-append {ℓ} :
    {A : Type ℓ} (p : A → Bool) (xs ys : List A) → keep p (xs ++ ys) ≡ keep p xs ++ keep p ys
keep-append p [] ys = refl
keep-append p (x ∷ xs) ys = ground (arith, keep-append p xs ys)

remove_of_IsFresh :
    (id : Text) (prev : List NotificationItem)
    → IsFresh id prev
    → remove_notification id prev ≡ prev
unfolding remove_notification
remove_of_IsFresh id [] h = refl
remove_of_IsFresh id (n ∷ prev) (hn, h) = rw (hn, remove_of_IsFresh id prev h)

remove-append :
    (id : Text) (xs ys : List NotificationItem)
    → remove_notification id (xs ++ ys) ≡ remove_notification id xs ++ remove_notification id ys
unfolding remove_notification
remove-append id xs ys = keep-append (λ n. not (text_eq n.id id)) xs ys

remove_own : (id : Text) (n : NotificationItem) → n.id ≡ id → remove_notification id (n ∷ []) ≡ []
unfolding remove_notification
remove_own id n e = let same = (text_eq_iff n.id id).1 e in rw same

IsFresh-add :
    (now₁ now₂ shown : ℕ) (message : Text) (kind : Kind) (prev : List NotificationItem)
    → now₁ ≢ now₂
    → IsFresh (decimal now₂) prev
    → IsFresh (decimal now₂) (add_notification now₁ shown message kind prev).0
unfolding add_notification
IsFresh-add now₁ now₂ shown message kind prev ne h =
    All-append (λ (n : NotificationItem). text_eq n.id (decimal now₂) ≡ false) prev _ h
      (text_eq_ne (decimal now₁) (decimal now₂) (λ e. ne (decimal-injective now₁ now₂ e)), tt)

-- Removing by the returned id undoes the addition, if no earlier notification has that id.
pub remove-add_notification :
    (now shown : ℕ) (message : Text) (kind : Kind) (prev : List NotificationItem)
    → IsFresh (decimal now) prev
    → remove_notification
        (add_notification now shown message kind prev).1
        (add_notification now shown message kind prev).0
      ≡ prev
unfolding add_notification
remove-add_notification now shown message kind prev h =
    remove-append (decimal now) prev _
    ∙ ap₂ (λ a b. a ++ b) (remove_of_IsFresh (decimal now) prev h) (remove_own (decimal now) _ refl)
    ∙ append-nil prev

-- Two notifications of the same millisecond have one id; if no earlier one has it, closing the second closes the first too.
pub remove_same_millisecond :
    (now shown₁ shown₂ : ℕ) (m₁ m₂ : Text) (k₁ k₂ : Kind) (prev : List NotificationItem)
    → IsFresh (decimal now) prev
    → (let first = add_notification now shown₁ m₁ k₁ prev in
        let second = add_notification now shown₂ m₂ k₂ first.0 in
        remove_notification second.1 second.0)
      ≡ prev
unfolding add_notification
remove_same_millisecond now shown₁ shown₂ m₁ m₂ k₁ k₂ prev h =
    remove-append (decimal now) (prev ++ _) _
    ∙ ap₂ (λ a b. a ++ b) (remove-add_notification now shown₁ m₁ k₁ prev h)
        (remove_own (decimal now) _ refl)
    ∙ append-nil prev

-- At different milliseconds, of which no earlier notification has the second, closing the second leaves the first.
pub remove_other_millisecond :
    (now₁ now₂ shown₁ shown₂ : ℕ) (m₁ m₂ : Text) (k₁ k₂ : Kind) (prev : List NotificationItem)
    → now₁ ≢ now₂
    → IsFresh (decimal now₂) prev
    → (let first = add_notification now₁ shown₁ m₁ k₁ prev in
        let second = add_notification now₂ shown₂ m₂ k₂ first.0 in
        remove_notification second.1 second.0)
      ≡ (add_notification now₁ shown₁ m₁ k₁ prev).0
remove_other_millisecond now₁ now₂ shown₁ shown₂ m₁ m₂ k₁ k₂ prev ne h =
    remove-add_notification now₂ shown₂ m₂ k₂ (add_notification now₁ shown₁ m₁ k₁ prev).0
      (IsFresh-add now₁ now₂ shown₁ m₁ k₁ prev ne h)
