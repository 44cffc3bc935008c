-- ===== src/Api/Files.antt =====
-- The functions of admin_api.js on files, the end-to-end data and file requests. `Base64.encode` is the parameter
-- `encode`.
use gokapiplus.Base.{Bool, true, false, [], ◌∷◌, ◌++◌, if◌then◌else◌}
use gokapiplus.Base.Text.{Text, codes}
use gokapiplus.Api.{Value, text, flag, get, post, put, delete, Body, Api}
use gokapiplus.Api.Read.{read_nothing, read_json, read_text}

unfoldable pub api_files_replace : Value → Value → Api Body
api_files_replace id new_id = record {
  permission = codes "PERM_REPLACE";
  request = λ token. record {
    url = codes "./api/files/replace";
    method = put;
    headers =
        (codes "Content-Type", text (codes "application/json"))
        ∷ (codes "id", id)
        ∷ (codes "apikey", text token)
        ∷ (codes "idNewContent", new_id)
        ∷ (codes "deleteNewFile", flag false)
        ∷ [];
    body = [];
  };
  read = read_json;
}

unfoldable pub api_files_list_by_id : Text → Api Body
api_files_list_by_id file_id = record {
  permission = codes "PERM_VIEW";
  request = λ token. record {
    url = codes "./api/files/list/" ++ file_id;
    method = get;
    headers =
        (codes "Content-Type", text (codes "application/json")) ∷ (codes "apikey", text token) ∷ [];
    body = [];
  };
  read = read_json;
}

unfoldable pub api_files_list_download_single : Text → Api Body
api_files_list_download_single file_id = record {
  permission = codes "PERM_DOWNLOAD";
  request = λ token. record {
    url = codes "./api/files/download/" ++ file_id;
    method = get;
    headers =
        (codes "Content-Type", text (codes "application/json"))
        ∷ (codes "apikey", text token)
        ∷ (codes "presignUrl", flag true)
        ∷ [];
    body = [];
  };
  read = read_json;
}

unfoldable pub api_files_list_download_zip : (Text → Text) → Value → Text → Api Body
api_files_list_download_zip encode file_ids filename = record {
  permission = codes "PERM_DOWNLOAD";
  request = λ token. record {
    url = codes "./api/files/downloadzip";
    method = get;
    headers =
        (codes "Content-Type", text (codes "application/json"))
        ∷ (codes "apikey", text token)
        ∷ (codes "ids", file_ids)
        ∷ (codes "filename", text (codes "base64:" ++ encode filename))
        ∷ (codes "presignUrl", flag true)
        ∷ [];
    body = [];
  };
  read = read_json;
}

unfoldable pub api_files_modify : Value → Value → Value → Value → Value → Api Body
api_files_modify id allowed_downloads expiry password original_pw = record {
  permission = codes "PERM_EDIT";
  request = λ token. record {
    url = codes "./api/files/modify";
    method = put;
    headers =
        (codes "Content-Type", text (codes "application/json"))
        ∷ (codes "id", id)
        ∷ (codes "apikey", text token)
        ∷ (codes "allowedDownloads", allowed_downloads)
        ∷ (codes "expiryTimestamp", expiry)
        ∷ (codes "password", password)
        ∷ (codes "originalPassword", original_pw)
        ∷ [];
    body = [];
  };
  read = read_json;
}

unfoldable pub api_files_delete : Value → Value → Api (Unit {0})
api_files_delete id delay = record {
  permission = codes "PERM_DELETE";
  request = λ token. record {
    url = codes "./api/files/delete";
    method = post;
    headers =
        (codes "Content-Type", text (codes "application/json"))
        ∷ (codes "apikey", text token)
        ∷ (codes "id", id)
        ∷ (codes "delay", delay)
        ∷ [];
    body = [];
  };
  read = read_nothing;
}

unfoldable pub api_files_restore : Value → Api Body
api_files_restore id = record {
  permission = codes "PERM_DELETE";
  request = λ token. record {
    url = codes "./api/files/restore";
    method = post;
    headers =
        (codes "Content-Type", text (codes "application/json"))
        ∷ (codes "apikey", text token)
        ∷ (codes "id", id)
        ∷ [];
    body = [];
  };
  read = read_json;
}

unfoldable pub api_e2e_get : Api Text
api_e2e_get = record {
  permission = codes "PERM_UPLOAD";
  request = λ token. record {
    url = codes "./api/e2e/get";
    method = post;
    headers =
        (codes "Content-Type", text (codes "application/json")) ∷ (codes "apikey", text token) ∷ [];
    body = [];
  };
  read = read_text;
}

unfoldable pub api_e2e_mutex_lock_unlock : Bool → Api Text
api_e2e_mutex_lock_unlock do_unlock = record {
  permission = codes "PERM_UPLOAD";
  request = λ token. record {
    url = if do_unlock then codes "./api/e2e/mutex/unlock" else codes "./api/e2e/mutex/lock";
    method = get;
    headers =
        (codes "Content-Type", text (codes "application/json")) ∷ (codes "apikey", text token) ∷ [];
    body = [];
  };
  read = read_text;
}

unfoldable pub api_e2e_store : Value → Api (Unit {0})
api_e2e_store content = record {
  permission = codes "PERM_UPLOAD";
  request = λ token. record {
    url = codes "./api/e2e/set";
    method = post;
    headers =
        (codes "Content-Type", text (codes "application/json")) ∷ (codes "apikey", text token) ∷ [];
    body = (codes "content", content) ∷ [];
  };
  read = read_nothing;
}

unfoldable pub api_u_request_delete : Value → Api (Unit {0})
api_u_request_delete id = record {
  permission = codes "PERM_MANAGE_FILE_REQUESTS";
  request = λ token. record {
    url = codes "./api/uploadrequest/delete";
    method = delete;
    headers =
        (codes "Content-Type", text (codes "application/json"))
        ∷ (codes "apikey", text token)
        ∷ (codes "id", id)
        ∷ [];
    body = [];
  };
  read = read_nothing;
}

unfoldable pub api_u_request_save :
    (Text → Text) → Value → Text → Value → Value → Value → Text → Api Body
api_u_request_save encode id name maxfiles maxsize expiry notes = record {
  permission = codes "PERM_MANAGE_FILE_REQUESTS";
  request = λ token. record {
    url = codes "./api/uploadrequest/save";
    method = post;
    headers =
        (codes "Content-Type", text (codes "application/json"))
        ∷ (codes "apikey", text token)
        ∷ (codes "id", id)
        ∷ (codes "name", text (codes "base64:" ++ encode name))
        ∷ (codes "expiry", expiry)
        ∷ (codes "maxfiles", maxfiles)
        ∷ (codes "maxsize", maxsize)
        ∷ (codes "notes", text (codes "base64:" ++ encode notes))
        ∷ [];
    body = [];
  };
  read = read_json;
}
