-- ===== src/Store/Errors.antt =====
-- The error texts of internal/store, one constructor for each.

pub data Err : Type 0 where
  -- saveLocked
  read_only_state write_failed : Err
  -- permissions.go
  exchange_permission not_owner admin_only no_such_user not_yourself bad_role bad_status : Err
  last_admin admin_needs_no_grant : Err
  -- exchange.go
  choose_account_and_goods bad_plan_field not_within_year bad_exchange_time : Err
  no_such_plan plan_changed plan_running shop_disabled plan_not_ready account_disabled : Err
  not_due window_passed duplicate_running bad_result_state attempt_went_back : Err
  not_resumable execution_changed plan_state_changed device_changed : Err
  -- store.go
  already_initialised not_initialised name_taken invite_only bad_mode bad_invite : Err
  user_exchanging invite_exists bad_invite_code invite_expired note_too_long bad_max_uses : Err
  no_such_invite invite_disabled creator_not_admin invite_used_up captcha_grant_missing : Err
  bad_log_owner : Err
  -- users.go, onboarding.go
  bad_login wrong_password bad_password bad_username bad_username_character user_inactive
        bad_onboarding :
      Err
  -- accounts.go
  account_gone account_exchanging uid_conflict uid_mismatch bad_uid bad_credential : Err
  bad_account_name bad_account_field bad_cloud_game bad_cloud_token account_bound : Err
  name_taken_by_uid account_duplicate account_exists credentials_changed no_owner : Err
  other_account rebind_gone : Err
  -- account_batch.go
  bad_group bad_batch no_batch_change bad_selection : Err
  -- archive.go
  bad_archive archive_without_uid bad_device archive_duplicate : Err
  -- task_settings.go, schedule.go
  bad_clock bad_zone bad_task_count bad_game bad_excluded bad_forum bad_post_limit bad_delay : Err
  settings_changed : Err
  -- push_outbox.go
  queue_full : Err
  -- captcha_probe.go
  probe_cooldown : Err
  -- calendar_reminders.go
  no_such_reminder reminder_submitted reminder_processed : Err
  -- calendar.go
  bad_event too_many_events event_gone bad_reminder snapshot_expired no_future_time : Err
  reminder_too_late reminder_repeated too_many_reminders : Err
