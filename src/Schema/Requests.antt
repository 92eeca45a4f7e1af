-- ===== src/Schema/Requests.antt =====
-- The messages of core/internal/schema/api.go that are checked field by field. A message is what its
-- check reads of it, and none if it is nil.
use abcmovies.Base.{Bool, not, ◌||◌, List, Text, blank, Option}
use abcmovies.Schema.Messages.{present_and, every}

-- A required string of a message that is not nil.
abbrev pub required : Option Text → Bool
required m = present_and (λ value. not (blank value)) m

unfoldable pub validate_get_job_request : Option Text → Bool
validate_get_job_request m = required m

unfoldable pub validate_heartbeat_request : Option Text → Bool
validate_heartbeat_request m = required m

unfoldable pub validate_heartbeat_response : Option Text → Bool
validate_heartbeat_response m = required m

-- The account of the response, by its id.
unfoldable pub validate_update_account_response : Option (Option Text) → Bool
validate_update_account_response m = present_and required m

unfoldable pub validate_remove_account_request : Option Text → Bool
validate_remove_account_request m = required m

unfoldable pub validate_get_play_info_request : Option Text → Bool
validate_get_play_info_request m = required m

unfoldable pub validate_link_account_response : Option Text → Bool
validate_link_account_response m = required m

pub record AccountSummary : Type 0 where
  pub account_id : Text
  pub provider : Text

abbrev pub account_summary : Option AccountSummary → Bool
account_summary m = present_and (λ acct. not (blank acct.account_id || blank acct.provider)) m

unfoldable pub validate_list_accounts_response : Option (List (Option AccountSummary)) → Bool
validate_list_accounts_response m = present_and (every account_summary) m

pub record PlayTrack : Type 0 where
  pub track_id : Text
  pub relay_url : Text

abbrev pub play_track : Option PlayTrack → Bool
play_track m = present_and (λ t. not (blank t.track_id || blank t.relay_url)) m

unfoldable pub validate_get_play_info_response : Option (List (Option PlayTrack)) → Bool
validate_get_play_info_response m = present_and (every play_track) m
