-- ===== src/Models/Topics.antt =====
-- src/internal/infrastructure/kafka_topics/topics.go: a `Topic` is a string, and `String()` is that
-- string.
use go_service_bao_fight.Base.{String}

abbrev pub Topic : Type 0
Topic = String

abbrev pub user_register : Topic
user_register = "user-register-v1"

abbrev pub user_register_error : Topic
user_register_error = "error-user-register-v1"

abbrev pub user_login : Topic
user_login = "user-login-v1"

abbrev pub system_logs : Topic
system_logs = "system-logs-v1"

abbrev pub chat_messages : Topic
chat_messages = "messages-v1"

abbrev pub logout : Topic
logout = "logout-v1"

abbrev pub change_profile : Topic
change_profile = "change-profile-v1"

abbrev pub change_profile_avatar : Topic
change_profile_avatar = "change-profile-avatar-v1"

abbrev pub search_user : Topic
search_user = "search-user-v1"

abbrev pub new_action_profile : Topic
new_action_profile = "new-action-profile-v1"

abbrev pub action_like_profile : Topic
action_like_profile = "action-like-profile-v1"

abbrev pub match_find : Topic
match_find = "match-find-v1"

abbrev pub match_find_notification : Topic
match_find_notification = "match-notification-v1"

abbrev pub like_notification : Topic
like_notification = "like-notification-v1"

abbrev pub to_string : Topic → String
to_string t = t
