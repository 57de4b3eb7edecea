-- ===== src/Messenger/Messages.antt =====
-- pigate/pkg/messenger/messanger.go: the payloads, and the topics of a location.
use pigate.Prelude.{String, ◌<>◌}

abbrev pub command_open_message : String
command_open_message = "open"

abbrev pub command_hold_open_message : String
command_hold_open_message = "hold_open"

abbrev pub command_close_message : String
command_close_message = "close"

abbrev pub status_opened : String
status_opened = "opened"

abbrev pub status_locked_open : String
status_locked_open = "locked_open"

abbrev pub status_closed : String
status_closed = "closed"

abbrev pub update_available : String
update_available = "update_available"

-- `fmt.Sprintf(TopicPigateStatus, locationID)`, and so for the two other templates.
abbrev pub topic_pigate_status : String → String
topic_pigate_status location = location <> "/pigate/status"

abbrev pub topic_pigate_command : String → String
topic_pigate_command location = location <> "/pigate/command"

abbrev pub topic_credentials_status : String → String
topic_credentials_status location = location <> "/credentials/status"
