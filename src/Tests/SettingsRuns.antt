-- ===== src/Tests/SettingsRuns.antt =====
-- Runs of the settings requests.
use mailbridge_mcp.Common.{
  ◌≡◌, ◌≤◌, ◌<◌, refl, String, some, [], ◌∷◌, List, find, any, update_where, delete_where, ok,
}
use mailbridge_mcp.Common.Maps.{Entry, has_key, put}
use mailbridge_mcp.Common.Text.{unique, utf16_length, trim_start, is_space}
use mailbridge_mcp.Security.SettingsSessions.{
  StoredSession, Authorization, IssuedSettingsSession, prune, is_malformed, issue, consume,
}
use mailbridge_mcp.Store.Rows.{empty_db}
use mailbridge_mcp.App.SettingsApi.{
  SettingsRequest, SettingsCall, settings_token, is_mailbox_id, authorize_settings, run_call,
  handle, response, SettingsBody,
}
use mailbridge_mcp.App.SettingsApi.Rotation.{authorize_settings-rotated}

settings_code : Unit {0}
unfolding find any update_where delete_where unique utf16_length trim_start is_space put prune
    is_malformed issue consume settings_token authorize_settings is_mailbox_id run_call handle
settings_code = tt

abbrev digest : String → String
digest s = s

abbrev session : StoredSession
session = record {
  user_key = "u";
  scopes = "mail.settings.write" ∷ [];
  client_id = "c";
  csrf_hash = "x";
  expires_at_ms = 5500;
}

abbrev sessions : List (Entry StoredSession)
sessions = record { key = "abcdefghijklmnopqrstuv"; value = session } ∷ []

abbrev request : SettingsRequest
request = record {
  authorization = "Settings  abcdefghijklmnopqrstuv";
  csrf = "x";
  next_token = "t";
  next_csrf = "y";
  consumed_at = 2000;
  pruned_at = 2000;
  issued_at = 2000;
  checked_at = 2000;
}

abbrev consumed : Authorization
consumed = record {
  user_key = "u";
  scopes = "mail.settings.write" ∷ [];
  client_id = "c";
  expires_at_ms = 5500;
}

abbrev rotated : IssuedSettingsSession
rotated = record { token = "t"; csrf = "y"; expires_at = 5000 }

abbrev left : List (Entry StoredSession)
left = record { key = "t"; value = record session { csrf_hash = "y"; expires_at_ms = 5000 } } ∷ []

rotates : authorize_settings digest 600000 request sessions ≡ (ok (consumed, rotated), left)
unfolding settings_code
rotates = refl

refuses :
    handle digest 600000
      (record request { csrf = "z" })
      SettingsCall.remove_account_data
      9
      (record { db = empty_db; sessions = sessions })
    ≡ (
      response 401 (SettingsBody.problem "settings_authorization_invalid"),
      record { db = empty_db; sessions = [] },
    )
unfolding settings_code
refuses = refl

authorize_settings-rotated_example :
    (token : String) × (shown : Entry StoredSession) × (next : Entry StoredSession)
    × (settings_token request.authorization ≡ some token)
    × (find (has_key (digest token)) sessions ≡ some shown)
    × (request.consumed_at < shown.value.expires_at_ms)
    × (find (has_key (digest rotated.token)) left ≡ some next)
    × (next.value.user_key ≡ shown.value.user_key)
    × (1000 ≤ shown.value.expires_at_ms → next.value.expires_at_ms ≤ shown.value.expires_at_ms)
authorize_settings-rotated_example =
    authorize_settings-rotated digest 600000 request sessions left consumed rotated rotates
