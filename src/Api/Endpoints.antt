-- ===== src/Api/Endpoints.antt =====
-- The functions of admin_api.js on keys and chunks. `Base64.encode` is the parameter
-- `encode`.
use gokapiplus.Base.{[], ◌∷◌, ◌++◌}
use gokapiplus.Base.Text.{Text, codes}
use gokapiplus.Api.{Value, text, post, put, Body, Api}
use gokapiplus.Api.Read.{read_nothing, read_json, read_upload}

unfoldable pub api_auth_modify : Value → Value → Value → Api (Unit {0})
api_auth_modify api_key permission modifier = record {
  permission = codes "PERM_API_MOD";
  request = λ token. record {
    url = codes "./api/auth/modify";
    method = post;
    headers =
        (codes "Content-Type", text (codes "application/json"))
        ∷ (codes "apikey", text token)
        ∷ (codes "targetKey", api_key)
        ∷ (codes "permission", permission)
        ∷ (codes "permissionModifier", modifier)
        ∷ [];
    body = [];
  };
  read = read_nothing;
}

unfoldable pub api_auth_friendly_name : Value → Value → Api (Unit {0})
api_auth_friendly_name api_key new_name = record {
  permission = codes "PERM_API_MOD";
  request = λ token. record {
    url = codes "./api/auth/friendlyname";
    method = put;
    headers =
        (codes "Content-Type", text (codes "application/json"))
        ∷ (codes "apikey", text token)
        ∷ (codes "targetKey", api_key)
        ∷ (codes "friendlyName", new_name)
        ∷ [];
    body = [];
  };
  read = read_nothing;
}

unfoldable pub api_auth_delete : Value → Api (Unit {0})
api_auth_delete api_key = record {
  permission = codes "PERM_API_MOD";
  request = λ token. record {
    url = codes "./api/auth/delete";
    method = post;
    headers =
        (codes "Content-Type", text (codes "application/json"))
        ∷ (codes "apikey", text token)
        ∷ (codes "targetKey", api_key)
        ∷ [];
    body = [];
  };
  read = read_nothing;
}

unfoldable pub api_auth_create : Api Body
api_auth_create = record {
  permission = codes "PERM_API_MOD";
  request = λ token. record {
    url = codes "./api/auth/create";
    method = post;
    headers =
        (codes "Content-Type", text (codes "application/json"))
        ∷ (codes "apikey", text token)
        ∷ (codes "basicPermissions", text (codes "true"))
        ∷ [];
    body = [];
  };
  read = read_json;
}

unfoldable pub api_chunk_complete :
    (Text → Text)
    → Value
    → Text
    → Value
    → Value
    → Value
    → Value
    → Value
    → Value
    → Value
    → Value
    → Api Body
api_chunk_complete encode uuid filename filesize realsize contenttype allowed_downloads expiry_days
      password is_e2e nonblocking =
    record {
      permission = codes "PERM_UPLOAD";
      request = λ token. record {
        url = codes "./api/chunk/complete";
        method = post;
        headers =
            (codes "Content-Type", text (codes "application/json"))
            ∷ (codes "apikey", text token)
            ∷ (codes "uuid", uuid)
            ∷ (codes "filename", text (codes "base64:" ++ encode filename))
            ∷ (codes "filesize", filesize)
            ∷ (codes "realsize", realsize)
            ∷ (codes "contenttype", contenttype)
            ∷ (codes "allowedDownloads", allowed_downloads)
            ∷ (codes "expiryDays", expiry_days)
            ∷ (codes "password", password)
            ∷ (codes "isE2E", is_e2e)
            ∷ (codes "nonblocking", nonblocking)
            ∷ [];
        body = [];
      };
      read = read_upload;
    }
