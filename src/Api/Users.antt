-- ===== src/Api/Users.antt =====
-- The functions of admin_api.js on users and logs.
use gokapiplus.Base.{[], ◌∷◌}
use gokapiplus.Base.Text.{codes}
use gokapiplus.Api.{Value, text, get, post, Body, Api}
use gokapiplus.Api.Read.{read_nothing, read_json, read_new_user}

unfoldable pub api_user_create : Value → Api Body
api_user_create user_name = record {
  permission = codes "PERM_MANAGE_USERS";
  request = λ token. record {
    url = codes "./api/user/create";
    method = post;
    headers =
        (codes "Content-Type", text (codes "application/json"))
        ∷ (codes "apikey", text token)
        ∷ (codes "username", user_name)
        ∷ [];
    body = [];
  };
  read = read_new_user;
}

unfoldable pub api_user_modify : Value → Value → Value → Api (Unit {0})
api_user_modify user_id permission modifier = record {
  permission = codes "PERM_MANAGE_USERS";
  request = λ token. record {
    url = codes "./api/user/modify";
    method = post;
    headers =
        (codes "Content-Type", text (codes "application/json"))
        ∷ (codes "apikey", text token)
        ∷ (codes "userid", user_id)
        ∷ (codes "userpermission", permission)
        ∷ (codes "permissionModifier", modifier)
        ∷ [];
    body = [];
  };
  read = read_nothing;
}

unfoldable pub api_user_change_rank : Value → Value → Api (Unit {0})
api_user_change_rank user_id new_rank = record {
  permission = codes "PERM_MANAGE_USERS";
  request = λ token. record {
    url = codes "./api/user/changeRank";
    method = post;
    headers =
        (codes "Content-Type", text (codes "application/json"))
        ∷ (codes "apikey", text token)
        ∷ (codes "userid", user_id)
        ∷ (codes "newRank", new_rank)
        ∷ [];
    body = [];
  };
  read = read_nothing;
}

unfoldable pub api_user_delete : Value → Value → Api (Unit {0})
api_user_delete id delete_files = record {
  permission = codes "PERM_MANAGE_USERS";
  request = λ token. record {
    url = codes "./api/user/delete";
    method = post;
    headers =
        (codes "Content-Type", text (codes "application/json"))
        ∷ (codes "apikey", text token)
        ∷ (codes "userid", id)
        ∷ (codes "deleteFiles", delete_files)
        ∷ [];
    body = [];
  };
  read = read_nothing;
}

unfoldable pub api_user_reset_password : Value → Value → Api Body
api_user_reset_password id generate_pw = record {
  permission = codes "PERM_MANAGE_USERS";
  request = λ token. record {
    url = codes "./api/user/resetPassword";
    method = post;
    headers =
        (codes "Content-Type", text (codes "application/json"))
        ∷ (codes "apikey", text token)
        ∷ (codes "userid", id)
        ∷ (codes "generateNewPassword", generate_pw)
        ∷ [];
    body = [];
  };
  read = read_json;
}

unfoldable pub api_log_system_status : Api Body
api_log_system_status = record {
  permission = codes "PERM_MANAGE_LOGS";
  request = λ token. record {
    url = codes "./api/logs/systemStatus";
    method = get;
    headers =
        (codes "Content-Type", text (codes "application/json")) ∷ (codes "apikey", text token) ∷ [];
    body = [];
  };
  read = read_json;
}

unfoldable pub api_log_reset_traffic : Api (Unit {0})
api_log_reset_traffic = record {
  permission = codes "PERM_MANAGE_LOGS";
  request = λ token. record {
    url = codes "./api/logs/resetTraffic";
    method = get;
    headers =
        (codes "Content-Type", text (codes "application/json")) ∷ (codes "apikey", text token) ∷ [];
    body = [];
  };
  read = read_nothing;
}

unfoldable pub api_log_get : Value → Api Body
api_log_get timestamp = record {
  permission = codes "PERM_MANAGE_LOGS";
  request = λ token. record {
    url = codes "./api/logs/get";
    method = get;
    headers =
        (codes "Content-Type", text (codes "application/json"))
        ∷ (codes "apikey", text token)
        ∷ (codes "timestamp", timestamp)
        ∷ [];
    body = [];
  };
  read = read_json;
}

unfoldable pub api_logs_delete : Value → Api (Unit {0})
api_logs_delete timestamp = record {
  permission = codes "PERM_MANAGE_LOGS";
  request = λ token. record {
    url = codes "./api/logs/delete";
    method = post;
    headers =
        (codes "Content-Type", text (codes "application/json"))
        ∷ (codes "apikey", text token)
        ∷ (codes "timestamp", timestamp)
        ∷ [];
    body = [];
  };
  read = read_nothing;
}
