-- ===== src/Tests/Output.antt =====
-- The text of the counters.
use tsanalytics.Base.{◌≡◌, ◌++◌, codes}
use tsanalytics.Tests.Data.{some_counts}
use tsanalytics.DropCount.{mark_last_drop_count}
use tsanalytics.Json.{indent, conv_json_drop_pid}
use tsanalytics.Json.Keys.{members}
use tsanalytics.Json.Pids.{pid_lines, conv_json_drop_pid-members}

conv_json_drop_pid-members_example :
    conv_json_drop_pid (mark_last_drop_count some_counts) 3
    ≡ indent 3
      ++ codes "\"drop_pid\":{\n"
      ++ members (pid_lines 3 8192 0 (mark_last_drop_count some_counts))
      ++ indent 3
      ++ codes "}"
conv_json_drop_pid-members_example = conv_json_drop_pid-members some_counts 3
