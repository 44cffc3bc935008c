-- ===== src/Api/Table.antt =====
-- All calls of admin_api.js in one type, for what holds of each of them.
use gokapiplus.Base.{Bool, ◌≡◌, refl, some}
use gokapiplus.Base.Text.{Text, codes, same_text}
use gokapiplus.Api.{Value, text, Request, lookup}
use gokapiplus.Api.Endpoints.{
  api_auth_modify, api_auth_friendly_name, api_auth_delete, api_auth_create, api_chunk_complete,
}
use gokapiplus.Api.Users.{
  api_user_create, api_user_modify, api_user_change_rank, api_user_delete, api_user_reset_password,
  api_log_system_status, api_log_reset_traffic, api_log_get, api_logs_delete,
}
use gokapiplus.Api.Files.{
  api_files_replace, api_files_list_by_id, api_files_list_download_single,
  api_files_list_download_zip, api_files_modify, api_files_delete, api_files_restore, api_e2e_get,
  api_e2e_mutex_lock_unlock, api_e2e_store, api_u_request_delete, api_u_request_save,
}

pub data Call : Type 0 where
  auth_modify : Value → Value → Value → Call
  auth_friendly_name : Value → Value → Call
  auth_delete : Value → Call
  auth_create : Call
  chunk_complete :
      (Text → Text)
      → Value
      → Text
      → Value
      → Value
      → Value
      → Value
      → Value
      → Value
      → Value
      → Value
      → Call
  files_replace : Value → Value → Call
  files_list_by_id : Text → Call
  files_list_download_single : Text → Call
  files_list_download_zip : (Text → Text) → Value → Text → Call
  files_modify : Value → Value → Value → Value → Value → Call
  files_delete : Value → Value → Call
  files_restore : Value → Call
  user_create : Value → Call
  user_modify : Value → Value → Value → Call
  user_change_rank : Value → Value → Call
  user_delete : Value → Value → Call
  user_reset_password : Value → Value → Call
  log_system_status : Call
  log_reset_traffic : Call
  log_get : Value → Call
  logs_delete : Value → Call
  e2e_get : Call
  e2e_mutex_lock_unlock : Bool → Call
  e2e_store : Value → Call
  u_request_delete : Value → Call
  u_request_save : (Text → Text) → Value → Text → Value → Value → Value → Text → Call

-- The request that a call makes with a token.
unfoldable pub request_of : Call → Text → Request
request_of (auth_modify api_key permission modifier) =
    (api_auth_modify api_key permission modifier).request
request_of (auth_friendly_name api_key new_name) = (api_auth_friendly_name api_key new_name).request
request_of (auth_delete api_key) = (api_auth_delete api_key).request
request_of auth_create = api_auth_create.request
request_of
      (chunk_complete encode uuid filename filesize realsize contenttype allowed_downloads
        expiry_days password is_e2e nonblocking) =
    (api_chunk_complete encode uuid filename filesize realsize contenttype allowed_downloads
      expiry_days password is_e2e nonblocking).request
request_of (files_replace id new_id) = (api_files_replace id new_id).request
request_of (files_list_by_id file_id) = (api_files_list_by_id file_id).request
request_of (files_list_download_single file_id) = (api_files_list_download_single file_id).request
request_of (files_list_download_zip encode file_ids filename) =
    (api_files_list_download_zip encode file_ids filename).request
request_of (files_modify id allowed_downloads expiry password original_pw) =
    (api_files_modify id allowed_downloads expiry password original_pw).request
request_of (files_delete id delay) = (api_files_delete id delay).request
request_of (files_restore id) = (api_files_restore id).request
request_of (user_create user_name) = (api_user_create user_name).request
request_of (user_modify user_id permission modifier) =
    (api_user_modify user_id permission modifier).request
request_of (user_change_rank user_id new_rank) = (api_user_change_rank user_id new_rank).request
request_of (user_delete id delete_files) = (api_user_delete id delete_files).request
request_of (user_reset_password id generate_pw) = (api_user_reset_password id generate_pw).request
request_of log_system_status = api_log_system_status.request
request_of log_reset_traffic = api_log_reset_traffic.request
request_of (log_get timestamp) = (api_log_get timestamp).request
request_of (logs_delete timestamp) = (api_logs_delete timestamp).request
request_of e2e_get = api_e2e_get.request
request_of (e2e_mutex_lock_unlock do_unlock) = (api_e2e_mutex_lock_unlock do_unlock).request
request_of (e2e_store content) = (api_e2e_store content).request
request_of (u_request_delete id) = (api_u_request_delete id).request
request_of (u_request_save encode id name maxfiles maxsize expiry notes) =
    (api_u_request_save encode id name maxfiles maxsize expiry notes).request

-- The permission that a call declares.
unfoldable pub permission_of : Call → Text
permission_of (auth_modify api_key permission modifier) =
    (api_auth_modify api_key permission modifier).permission
permission_of (auth_friendly_name api_key new_name) =
    (api_auth_friendly_name api_key new_name).permission
permission_of (auth_delete api_key) = (api_auth_delete api_key).permission
permission_of auth_create = api_auth_create.permission
permission_of
      (chunk_complete encode uuid filename filesize realsize contenttype allowed_downloads
        expiry_days password is_e2e nonblocking) =
    (api_chunk_complete encode uuid filename filesize realsize contenttype allowed_downloads
      expiry_days password is_e2e nonblocking).permission
permission_of (files_replace id new_id) = (api_files_replace id new_id).permission
permission_of (files_list_by_id file_id) = (api_files_list_by_id file_id).permission
permission_of (files_list_download_single file_id) =
    (api_files_list_download_single file_id).permission
permission_of (files_list_download_zip encode file_ids filename) =
    (api_files_list_download_zip encode file_ids filename).permission
permission_of (files_modify id allowed_downloads expiry password original_pw) =
    (api_files_modify id allowed_downloads expiry password original_pw).permission
permission_of (files_delete id delay) = (api_files_delete id delay).permission
permission_of (files_restore id) = (api_files_restore id).permission
permission_of (user_create user_name) = (api_user_create user_name).permission
permission_of (user_modify user_id permission modifier) =
    (api_user_modify user_id permission modifier).permission
permission_of (user_change_rank user_id new_rank) =
    (api_user_change_rank user_id new_rank).permission
permission_of (user_delete id delete_files) = (api_user_delete id delete_files).permission
permission_of (user_reset_password id generate_pw) =
    (api_user_reset_password id generate_pw).permission
permission_of log_system_status = api_log_system_status.permission
permission_of log_reset_traffic = api_log_reset_traffic.permission
permission_of (log_get timestamp) = (api_log_get timestamp).permission
permission_of (logs_delete timestamp) = (api_logs_delete timestamp).permission
permission_of e2e_get = api_e2e_get.permission
permission_of (e2e_mutex_lock_unlock do_unlock) = (api_e2e_mutex_lock_unlock do_unlock).permission
permission_of (e2e_store content) = (api_e2e_store content).permission
permission_of (u_request_delete id) = (api_u_request_delete id).permission
permission_of (u_request_save encode id name maxfiles maxsize expiry notes) =
    (api_u_request_save encode id name maxfiles maxsize expiry notes).permission

-- Whichever API function makes it, a request carries the token as its header apikey.
pub request_of-apikey :
    (c : Call) (token : Text)
    → lookup (codes "apikey") (request_of c token).headers ≡ some (text token)
unfolding request_of lookup same_text api_auth_modify api_auth_friendly_name api_auth_delete
    api_auth_create api_chunk_complete api_files_replace api_files_list_by_id
    api_files_list_download_single api_files_list_download_zip api_files_modify api_files_delete
    api_files_restore api_user_create api_user_modify api_user_change_rank api_user_delete
    api_user_reset_password api_log_system_status api_log_reset_traffic api_log_get api_logs_delete
    api_e2e_get api_e2e_mutex_lock_unlock api_e2e_store api_u_request_delete api_u_request_save
request_of-apikey (auth_modify api_key permission modifier) token = refl
request_of-apikey (auth_friendly_name api_key new_name) token = refl
request_of-apikey (auth_delete api_key) token = refl
request_of-apikey auth_create token = refl
request_of-apikey
      (chunk_complete encode uuid filename filesize realsize contenttype allowed_downloads
        expiry_days password is_e2e nonblocking)
      token =
    refl
request_of-apikey (files_replace id new_id) token = refl
request_of-apikey (files_list_by_id file_id) token = refl
request_of-apikey (files_list_download_single file_id) token = refl
request_of-apikey (files_list_download_zip encode file_ids filename) token = refl
request_of-apikey (files_modify id allowed_downloads expiry password original_pw) token = refl
request_of-apikey (files_delete id delay) token = refl
request_of-apikey (files_restore id) token = refl
request_of-apikey (user_create user_name) token = refl
request_of-apikey (user_modify user_id permission modifier) token = refl
request_of-apikey (user_change_rank user_id new_rank) token = refl
request_of-apikey (user_delete id delete_files) token = refl
request_of-apikey (user_reset_password id generate_pw) token = refl
request_of-apikey log_system_status token = refl
request_of-apikey log_reset_traffic token = refl
request_of-apikey (log_get timestamp) token = refl
request_of-apikey (logs_delete timestamp) token = refl
request_of-apikey e2e_get token = refl
request_of-apikey (e2e_mutex_lock_unlock do_unlock) token = refl
request_of-apikey (e2e_store content) token = refl
request_of-apikey (u_request_delete id) token = refl
request_of-apikey (u_request_save encode id name maxfiles maxsize expiry notes) token = refl
