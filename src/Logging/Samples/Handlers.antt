-- ===== src/Logging/Samples/Handlers.antt =====
-- A build with a destination of its own, two handlers, and a record with a newline.
use aibap_mcp.Base.{
  ◌≡◌, refl, true, false, none, some, List, [], ◌∷◌, ◌++◌, Text, bytes, has_byte, ok, err,
}
use aibap_mcp.Debug.Values.{pos}
use aibap_mcp.Logging.Setup.{Level, Link, Env, setup_handlers, destination}
use aibap_mcp.Logging.Fanout.{SlogHandler}
use aibap_mcp.Logging.Line.{syslog_line, syslog_line_single}

abbrev release : Link
release = record {
  default_papertrail_host = bytes "logs.example";
  default_papertrail_port = bytes "514";
  default_commit = bytes "abc1234";
}

-- Only the port is set: nothing is sent to the host of the build.
abbrev half_set : Env
half_set = record {
  log_level = some (bytes "DEBUG");
  log_format = none;
  papertrail_host = none;
  papertrail_port = some (bytes "515");
}

half_set_logs_nowhere : destination (setup_handlers release half_set) ≡ none
unfolding setup_handlers
half_set_logs_nowhere = refl

-- A handler that writes its name before the record, and one that takes errors only and fails.
abbrev LogHandler : Type 0
LogHandler = SlogHandler (List Text) Level Text Text

abbrev all_levels : LogHandler
all_levels = record {
  is_enabled = λ level. true;
  take_record = λ r w. (ok tt, (bytes "all " ++ r) ∷ w);
}

abbrev none_at_all : LogHandler
none_at_all = record { is_enabled = λ level. false; take_record = λ r w. (err (bytes "closed"), w) }

syslog_line_single_example :
    (body : Text) × (syslog_line
        (pos 8)
        (bytes "2026-01-01T00:00:00Z")
        (bytes "host")
        (b'a' ∷ b'\n' ∷ b'b' ∷ [])
      ≡ body ++ (b'\n' ∷ []))
    × (has_byte b'\n' body ≡ false)
unfolding has_byte
syslog_line_single_example =
    syslog_line_single (pos 8) (bytes "2026-01-01T00:00:00Z") (bytes "host")
      (b'a' ∷ b'\n' ∷ b'b' ∷ []) refl refl
