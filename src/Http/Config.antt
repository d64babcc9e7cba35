-- ===== src/Http/Config.antt =====
-- httpidem/httpidem.go: the configuration, its defaults and the options.
use idemlease.Base.{ℕ, Bytes, Bool, true, false, Option, none, some, List, [], ◌∷◌, map}
use idemlease.Base.Int.{ℤ, pos}
use idemlease.Base.Text.{codes, to_upper}
use idemlease.Core.Time.{Duration}
use idemlease.Http.Errors.{HttpError}
use idemlease.Http.Recorder.{Writer}
use idemlease.Http.Policy.{ReplayPolicy, default_decide}
use idemlease.Http.Exchange.{Request}

-- `ErrorWriter`: what `WriteError` does to the writer.
abbrev pub ErrorWriter : Type 0
ErrorWriter = Request → ℕ → HttpError → Writer → Writer

-- `config`. The logger is the list of events of an exchange, and `HashKeysInLogs` concerns its text
-- only. A nil function is `none`.
pub record Config : Type 0 where
  pub require : Bool
  pub lease_ttl : Duration
  pub record_ttl : Duration
  pub max_request_body : ℤ
  pub max_response_body : ℤ
  pub bypass_large_body : Bool
  pub policy : ReplayPolicy
  pub error_writer : ErrorWriter
  pub fail_open : Bool
  pub methods : List Bytes
  pub store_headers : List Bytes
  pub key_scope : Option (Request → Bytes)
  pub key_validator : Option (Bytes → Bool)
  pub replayed_header : Bool

abbrev pub default_max_request_body : ℕ
default_max_request_body = 1048576

abbrev pub default_max_response_body : ℕ
default_max_response_body = 1048576

-- The defaults of `New`, over the default error writer.
abbrev pub default_config : ErrorWriter → Config
default_config ew = record {
  require = false;
  lease_ttl = pos 0;
  record_ttl = pos 0;
  max_request_body = pos default_max_request_body;
  max_response_body = pos default_max_response_body;
  bypass_large_body = false;
  policy = default_decide;
  error_writer = ew;
  fail_open = false;
  methods = codes "POST" ∷ codes "PATCH" ∷ [];
  store_headers =
      codes "Content-Type"
      ∷ codes "Content-Language"
      ∷ codes "Content-Encoding"
      ∷ codes "Content-Disposition"
      ∷ codes "Location"
      ∷ [];
  key_scope = none;
  key_validator = none;
  replayed_header = true;
}

-- `Option`. `Logger` and `HashKeysInLogs` have no counterpart.
abbrev pub ConfigOption : Type 0
ConfigOption = Config → Config

-- `Require`
pub with_require : Bool → ConfigOption
with_require v cfg = record cfg { require = v }

-- `LeaseTTL`
pub with_lease_ttl : Duration → ConfigOption
with_lease_ttl d cfg = record cfg { lease_ttl = d }

-- `RecordTTL`
pub with_record_ttl : Duration → ConfigOption
with_record_ttl d cfg = record cfg { record_ttl = d }

-- `MaxRequestBody`
pub with_max_request_body : ℤ → ConfigOption
with_max_request_body n cfg = record cfg { max_request_body = n }

-- `MaxResponseBody`
pub with_max_response_body : ℤ → ConfigOption
with_max_response_body n cfg = record cfg { max_response_body = n }

-- `BypassLargeBody`
pub with_bypass_large_body : Bool → ConfigOption
with_bypass_large_body v cfg = record cfg { bypass_large_body = v }

-- `Policy`
pub with_policy : ReplayPolicy → ConfigOption
with_policy p cfg = record cfg { policy = p }

-- `Errors`
pub with_errors : ErrorWriter → ConfigOption
with_errors ew cfg = record cfg { error_writer = ew }

-- `FailOpen`
pub with_fail_open : Bool → ConfigOption
with_fail_open v cfg = record cfg { fail_open = v }

-- `Methods`
unfoldable pub with_methods : List Bytes → ConfigOption
with_methods methods cfg = record cfg { methods = map to_upper methods }

-- `StoreHeaders`
pub with_store_headers : List Bytes → ConfigOption
with_store_headers names cfg = record cfg { store_headers = names }

-- `KeyScope`
pub with_key_scope : (Request → Bytes) → ConfigOption
with_key_scope f cfg = record cfg { key_scope = some f }

-- `KeyValidator`
pub with_key_validator : (Bytes → Bool) → ConfigOption
with_key_validator f cfg = record cfg { key_validator = some f }

-- `ReplayedHeader`
pub with_replayed_header : Bool → ConfigOption
with_replayed_header v cfg = record cfg { replayed_header = v }

-- The loop of `New` over the options.
unfoldable pub apply_options : List ConfigOption → Config → Config
apply_options [] cfg = cfg
apply_options (o ∷ os) cfg = apply_options os (o cfg)
