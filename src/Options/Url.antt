-- ===== src/Options/Url.antt =====
-- `from_str` of options.rs: the reading of a connection URL. The url crate's `Url::parse` and the
-- reading of decoded bytes as UTF-8 are parameters.
use sqlx_mssql_rs.Prelude.{
  ℕ, ◌-◌, ◌^◌, not, Option, none, some, List, [], ◌∷◌, ◌++◌, Text, codes, text_eq, ◌==◌,
  if◌then◌else◌,
}
use sqlx_mssql_rs.Prelude.Ascii.{eq_ignore_ascii_case, trim, parse_unsigned}
use sqlx_mssql_rs.Options.{
  Result, ok, err, MssqlConnectOptions, OptionsError, configuration, default, trust_certificate,
  parse_bool, parse_encryption, percent_decode_bytes,
}

-- What `from_str` asks of a parsed URL. The user name, the password and the path are still
-- percent-encoded, the query's keys and values are not.
pub record Url : Type 0 where
  pub scheme : Text
  pub host_str : Option Text
  pub port : Option ℕ
  pub username : Text
  pub password : Option Text
  pub path : Text
  pub query_pairs : List (Text × Text)

-- `Result::map`.
abbrev pub map_ok : {X A B : Type 0} → (A → B) → Result X A → Result X B
map_ok f (ok a) = ok (f a)
map_ok f (err x) = err x

abbrev timeout_of : Text → Option ℕ → Result OptionsError ℕ
timeout_of value (some seconds) = ok seconds
timeout_of value none = err (
    configuration
      (codes "`connect_timeout` must be a whole number of seconds, got `" ++ (value ++ codes "`")))

-- One round of the loop over the query.
unfoldable pub with_parameter :
    MssqlConnectOptions → Text × Text → Result OptionsError MssqlConnectOptions
with_parameter options (key, value) =
    if text_eq key (codes "database")
    then ok (record options { database = value })
    else if text_eq key (codes "encrypt")
    then map_ok (λ mode. record options { encryption = mode }) (parse_encryption key value)
    else if text_eq key (codes "trust_certificate")
    then map_ok (λ enabled. trust_certificate options enabled) (parse_bool key value)
    else if text_eq key (codes "server_certificate")
    then ok (record options { server_certificate = some value })
    else if text_eq key (codes "host_name_in_cert")
    then ok (record options { host_name_in_cert = some value })
    else if text_eq key (codes "application_name")
    then ok (record options { application_name = some value })
    else if text_eq key (codes "connect_timeout")
    then map_ok (λ seconds. record options { connect_timeout = some seconds })
        (timeout_of value (parse_unsigned (2 ^ 64 - 1) value))
    else ok options

abbrev pub then_with : {X A B : Type 0} → Result X A → (A → Result X B) → Result X B
then_with (ok a) f = f a
then_with (err x) f = err x

-- The loop.
abbrev pub with_parameters :
    List (Text × Text) → MssqlConnectOptions → Result OptionsError MssqlConnectOptions
with_parameters [] options = ok options
with_parameters (pair ∷ pairs) options =
    then_with (with_parameter options pair) (with_parameters pairs)

-- `trim_start_matches('/')`.
abbrev pub trim_slashes : Text → Text
trim_slashes [] = []
trim_slashes (c ∷ s) = let rest = trim_slashes s in if c == b'/' then rest else c ∷ s

abbrev unwrap_or {ℓ} : {A : Type ℓ} → A → Option A → A
unwrap_or d none = d
unwrap_or d (some a) = a

module _ (parse : Text → Result Text Url) (utf8_lossy : Text → Text) where
  abbrev pub percent_decode : Text → Text
  percent_decode input = utf8_lossy (percent_decode_bytes input)

  -- The options before the query is read.
  abbrev pub of_authority : Url → Text → MssqlConnectOptions
  of_authority url host = record default {
    host = host;
    port = unwrap_or 1433 url.port;
    username = percent_decode url.username;
    password = percent_decode (unwrap_or [] url.password);
    database = percent_decode (trim_slashes url.path);
  }

  abbrev pub with_host : Url → Option Text → Result OptionsError MssqlConnectOptions
  with_host url none = err (configuration (codes "MSSQL connection URL is missing a host"))
  with_host url (some host) = with_parameters url.query_pairs (of_authority url host)

  abbrev pub of_url : Text → Result Text Url → Result OptionsError MssqlConnectOptions
  of_url trimmed (err error) = err (
      configuration (codes "invalid MSSQL connection URL `" ++ (trimmed ++ (codes "`: " ++ error))))
  of_url trimmed (ok url) =
      if not (eq_ignore_ascii_case url.scheme (codes "mssql"))
      then err (
          configuration (
            codes "unsupported URL scheme `"
            ++ (url.scheme ++ codes "` for MSSQL; expected `mssql://`")))
      else with_host url url.host_str

  unfoldable pub from_str : Text → Result OptionsError MssqlConnectOptions
  from_str input = of_url (trim input) (parse (trim input))
