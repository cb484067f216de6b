-- ===== src/Manager/Config.antt =====
-- src/manager/config.rs, and `Manager::new` and `start_receive` of src/manager.rs.
use sigchat.Base.{ℕ, ◌++◌, Bool, false, Option, none, some, Exec, raise, map_error}
use sigchat.Text.{Bytes, codes}
use sigchat.Io.{ErrorKind}
use sigchat.Account.Environment.{ServiceEnvironment, live, staging}
use sigchat.Account.Fields.{Account, chat_host}
use sigchat.Manager.Settings.{TrustMode}

-- `Host` and `Url` are the url crate's.
pub record Config (Host Url : Type 0) : Type 0 where
  pub host : Host
  pub service_environment : ServiceEnvironment
  pub url : Url

-- The fields of `Manager`; its websocket is never set.
pub record Manager (Host Url : Type 0) : Type 0 where
  pub account : Account Host
  pub config : Config Host Url
  pub trust_mode : TrustMode
  pub log_verbose : Bool
  pub log_scrub : Bool
  pub log_send : Bool

module _ {Host Url : Type 0} (host_text : Host → Bytes) (parse_url : Bytes → Option Url) where
  abbrev base_text : ServiceEnvironment → Bytes → Bytes
  base_text live host_base = codes "https://chat." ++ host_base
  base_text staging host_base = codes "https://chat.staging." ++ host_base

  abbrev configured : Host → ServiceEnvironment → Option Url → Option (Config Host Url)
  configured host service_environment none = none
  configured host service_environment (some url) =
      some (record { host = host; service_environment = service_environment; url = url })

  -- `Config::new`; `none` is the panic of the `unwrap`.
  unfoldable pub config_new : Host → ServiceEnvironment → Option (Config Host Url)
  config_new host service_environment =
      configured host service_environment
        (parse_url (base_text service_environment (host_text host)))

  abbrev managed : Account Host → TrustMode → Option (Config Host Url) → Option (Manager Host Url)
  managed account trust_mode none = none
  managed account trust_mode (some config) = some (record {
    account = account;
    config = config;
    trust_mode = trust_mode;
    log_verbose = false;
    log_scrub = false;
    log_send = false;
  })

  unfoldable pub manager_new : Account Host → TrustMode → Option (Manager Host Url)
  manager_new account trust_mode =
      managed account trust_mode (config_new account.host account.service_environment)

-- `MainWsWorker::spawn` of the service id, the device, the password, the host and the chat window.
module _ {Host S : Type 0} (host_text : Host → Bytes)
    (spawn : Bytes → ℕ → Bytes → Bytes → ℕ → Exec ErrorKind S (Unit {0})) where
  abbrev pub started : Account Host → ℕ → Option Bytes → Option Bytes → Exec ErrorKind S (Unit {0})
  started a chat_cid (some aci) (some password) =
      map_error (λ _. ErrorKind.other)
        (spawn aci a.device_id password (chat_host (host_text a.host) a) chat_cid)
  started a chat_cid _ _ = raise ErrorKind.other

  unfoldable pub start_receive : {Url : Type 0} → Manager Host Url → ℕ → Exec ErrorKind S (Unit {0})
  start_receive m chat_cid = started m.account chat_cid m.account.aci_service_id m.account.password
