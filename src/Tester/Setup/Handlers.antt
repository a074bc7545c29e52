-- ===== src/Tester/Setup/Handlers.antt =====
-- The handlers of web/frontend/src/page/tester/TesterSetupPage.tsx that call the server: saving,
-- updating, renaming and starting.
use fru_lab.Prelude.{Bool, true, false, Option, none, some, ◌++◌, if◌then◌else◌}
use fru_lab.Js.Text.{Text, codes, trim, or_else}
use fru_lab.Dashboard.Types.{Answer, answered, failed}
use fru_lab.Tester.Profiles.{TesterStoredProfile, ProfileOps}
use fru_lab.Tester.Setup.{
  SaveFor, for_save, for_start, RenameRequest, run_page, update_called, run_called, went_to,
  told_success, told_error, Setup, SetupApi, emit, is_dirty, put_stored, is_refused, proposed,
  send_create,
}

module _ {P E : Type 0} (ops : ProfileOps P) (storage : Bool) (api : SetupApi P E) where
  abbrev pub on_started : Text → Option E → Setup P → Setup P
  on_started id none s = emit (went_to (run_page id)) s
  on_started id (some e) s =
      record (emit (told_error (api.extract_error_message e (codes "Failed to start the run"))) s) {
        is_busy = false;
      }

  abbrev pub run_id : P → Text
  run_id p = or_else (ops.tester_id p) (codes "default")

  unfoldable pub start : P → Setup P → Setup P
  start p s =
      on_started (run_id p) (api.run_start (run_id p) (ops.for_tester p))
        (emit (run_called (run_id p) (ops.for_tester p)) s)

  -- `saveNew` behind its `await`.
  unfoldable pub on_created : Text → SaveFor → Answer E (TesterStoredProfile P) → Setup P → Setup P
  on_created name next (failed e) s =
      record (emit (told_error (api.extract_error_message e (codes "Failed to save the profile")))
        s) { is_busy = false }
  on_created name for_start (answered p) s =
      start (ops.normalize p.profile) (put_stored ops storage p s)
  on_created name for_save (answered p) s =
      record (emit (told_success (codes "Saved as new profile \"" ++ trim name ++ codes "\""))
        (put_stored ops storage p s)) { is_busy = false }

  unfoldable pub save_new : Text → SaveFor → Setup P → Setup P
  save_new name next s =
      if is_refused ops storage name s
      then record s { rename = some (record { name = proposed ops storage name s; next = next }) }
      else on_created name next (api.create (ops.with_name (trim name) s.profile))
          (send_create ops storage name s)

  -- `update` behind its `await`, with the result that it gives.
  abbrev pub on_updated : Answer E (TesterStoredProfile P) → Setup P → Setup P × Bool
  on_updated (failed e) s = (
    emit (told_error (api.extract_error_message e (codes "Failed to update the profile"))) s,
    false,
  )
  on_updated (answered p) s = (put_stored ops storage p s, true)

  unfoldable pub update : Setup P → Setup P × Bool
  update s = elim s.current_id [
    | none ↦ (s, false)
    | some id ↦ on_updated (api.update id s.profile) (emit (update_called id s.profile) s)
  ]

  abbrev pub finish_update : Text → Setup P × Bool → Setup P
  finish_update name (s, false) = record s { is_busy = false }
  finish_update name (s, true) =
      record (emit (told_success (codes "Updated profile \"" ++ trim name ++ codes "\"")) s) {
        is_busy = false;
      }

  unfoldable pub handle_save : Setup P → Setup P
  handle_save s = elim s.current_id [
    | none ↦ save_new (ops.name s.profile) for_save s
    | some _ ↦ record s { is_choosing_save = true }
  ]

  unfoldable pub handle_update : Setup P → Setup P
  handle_update s =
      finish_update (ops.name s.profile)
        (update (record s { is_choosing_save = false; is_busy = true }))

  unfoldable pub handle_save_as_new : Setup P → Setup P
  handle_save_as_new s =
      save_new (ops.name s.profile) for_save (record s { is_choosing_save = false })

  abbrev pub rename_with : Option RenameRequest → Setup P → Setup P
  rename_with none s = s
  rename_with (some r) s = save_new r.name r.next (record s { rename = none })

  unfoldable pub handle_rename : Setup P → Setup P
  handle_rename s = rename_with s.rename s

  abbrev pub start_updated : P → Setup P × Bool → Setup P
  start_updated p (s, false) = record s { is_busy = false }
  start_updated p (s, true) = start p s

  -- `handleStart` of an open profile.
  abbrev pub start_open : Setup P → Setup P
  start_open s =
      if is_dirty ops storage s
      then start_updated s.profile (update (record s { is_busy = true }))
      else start s.profile (record s { is_busy = true })

  unfoldable pub handle_start : Setup P → Setup P
  handle_start s = elim s.current_id [
    | none ↦ save_new (ops.name s.profile) for_start s
    | some _ ↦ start_open s
  ]
