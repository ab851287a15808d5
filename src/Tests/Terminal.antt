-- ===== src/Tests/Terminal.antt =====
-- The theorems on src/log.c at concrete data.
use ota_fetch.Base.{◌≡◌, refl, Bytes, codes, take, pos, none, true, false, [], ◌++◌}
use ota_fetch.Log.Defs.{
  Log, log_is_enabled, log_level_str, log_render_line, log_render_progress, log_vwrite,
}
use ota_fetch.Log.Screen.{feed, blank}
use ota_fetch.Log.Clean.{Logs, opened, updated, IsAtStart, log_vwrite-IsAtStart}

-- A progress line on a terminal.
abbrev begun : Log
begun = record {
  log_level = 3;
  is_tty = true;
  progress_active = false;
  progress_width = 0;
  stderr = [];
  log_file = none;
}

abbrev half_way : Log
half_way = log_render_progress (codes "50% of it") false begun

logs : Logs half_way
logs = updated begun (codes "50% of it") refl (opened 3 none)

shows_info : log_is_enabled (pos 3) half_way ≡ true
unfolding log_render_progress log_is_enabled
shows_info = refl

log_vwrite-IsAtStart_example :
    (text : Bytes) × ((log_vwrite (pos 3) (codes "done") half_way).stderr
      ≡ text ++ log_render_line (log_level_str (pos 3)) (take 1023 (codes "done")))
    × IsAtStart (feed blank text)
log_vwrite-IsAtStart_example = log_vwrite-IsAtStart half_way (pos 3) (codes "done") logs shows_info
