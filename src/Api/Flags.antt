-- ===== src/Api/Flags.antt =====
-- src/internal/infrastructure/start_flags/flags.go: the names of the services.
use go_service_bao_fight.Base.{String}

abbrev pub Flag : Type 0
Flag = String

abbrev pub user_register : Flag
user_register = "user_register"

abbrev pub user_login : Flag
user_login = "user_login"

abbrev pub user_change_password : Flag
user_change_password = "user_change_password"

abbrev pub send_message : Flag
send_message = "send_message"

abbrev pub get_messages : Flag
get_messages = "get_messages"

abbrev pub change_profile : Flag
change_profile = "change_profile"

abbrev pub change_profile_avatar : Flag
change_profile_avatar = "change_profile_avatar"

abbrev pub search_user : Flag
search_user = "search_user"

abbrev pub reaction_worker : Flag
reaction_worker = "reaction_worker"

abbrev pub refresh_session : Flag
refresh_session = "refresh_session"

abbrev pub logout_from_session : Flag
logout_from_session = "logout_from_session"

abbrev pub web_socket : Flag
web_socket = "web_socket"
