-- ===== src/Components/Tests.antt =====
-- Runs of the pager and of the notifications, and the theorems at concrete inputs.
use fru_lab.Prelude.{ℕ, ◌+◌, ◌≤◌, ◌≡◌, refl, List, [], ◌∷◌, arith, length, ◌==◌, if◌then◌else◌}
use fru_lab.Js.Text.{codes}
use fru_lab.Components.Paging.{pages_of, page_of, first_pages, page_of_bounds, first_pages_all}
use fru_lab.Components.Notifications.{
  NotificationItem, error, success, add_notification, remove_notification, remove_same_millisecond,
}

abbrev seven : List ℕ
seven = 1 ∷ 2 ∷ 3 ∷ 4 ∷ 5 ∷ 6 ∷ 7 ∷ []

last_page : (page_of seven 9 3).items ≡ 7 ∷ []
unfolding page_of
last_page = refl

page_of_bounds_example :
    (1 ≤ (page_of seven 9 3).page)
    × ((page_of seven 9 3).page ≤ (page_of seven 9 3).pages)
    × (length (page_of seven 9 3).items ≤ 3)
    × ((page_of seven 9 3).to ≤ length seven)
    × ((page_of seven 9 3).from + length (page_of seven 9 3).items
        ≡ (page_of seven 9 3).to + (if length seven == 0 then 0 else 1))
    × ((length (page_of seven 9 3).items ≡ 0) → length seven ≡ 0)
page_of_bounds_example = page_of_bounds seven 9 3 (omega arith)

first_pages_all_example : first_pages seven 3 (pages_of (length seven) 3) ≡ seven
first_pages_all_example = first_pages_all seven 3 (omega arith)

abbrev earlier : List NotificationItem
earlier = (add_notification 5 5 (codes "saved") success []).0

remove_same_millisecond_example :
    (let first = add_notification 7 7 (codes "a") error [] in
      let second = add_notification 7 8 (codes "b") success first.0 in
      remove_notification second.1 second.0)
    ≡ []
remove_same_millisecond_example =
    remove_same_millisecond 7 7 8 (codes "a") (codes "b") error success [] tt
