-- ===== src/Options.antt =====
-- sqlx-mssql-rs-core/src/options.rs: the connection options and their reading from a URL. What the
-- url crate makes of the text is a parameter. Paths are text, durations are seconds, and the log
-- settings are left out.
pub mod Url
pub mod Percent
pub mod Query
use sqlx_mssql_rs.Prelude.{
  ℕ, ◌+◌, ◌-◌, ◌*◌, ◌^◌, Bool, true, false, not, Option, none, some, List, [], ◌∷◌, ◌++◌, Text,
  codes, text_eq, holds, leb, ◌&&◌, ◌||◌, ◌==◌, if◌then◌else◌,
}
use sqlx_mssql_rs.Prelude.Ascii.{to_ascii_lowercase, eq_ignore_ascii_case, trim, parse_unsigned}
use sqlx_mssql_rs.Prelude.Decimal.{to_string}

pub data Result (X A : Type 0) : Type 0 where
  ok : A → Result X A
  err : X → Result X A

pub data MssqlEncryption : Type 0 where
  prefer_off : MssqlEncryption
  on : MssqlEncryption
  required : MssqlEncryption
  strict : MssqlEncryption

pub record MssqlConnectOptions : Type 0 where
  pub host : Text
  pub port : ℕ
  pub username : Text
  pub password : Text
  pub database : Text
  pub encryption : MssqlEncryption
  pub trust_server_certificate : Bool
  pub server_certificate : Option Text
  pub host_name_in_cert : Option Text
  pub application_name : Option Text
  pub connect_timeout : Option ℕ

-- `Error::Configuration`.
pub data OptionsError : Type 0 where
  configuration : Text → OptionsError

abbrev pub default : MssqlConnectOptions
default = record {
  host = codes "localhost";
  port = 1433;
  username = [];
  password = [];
  database = [];
  encryption = on;
  trust_server_certificate = false;
  server_certificate = none;
  host_name_in_cert = none;
  application_name = none;
  connect_timeout = none;
}

abbrev pub datasource : MssqlConnectOptions → Text
datasource o = codes "tcp:" ++ (o.host ++ (codes "," ++ to_string o.port))

abbrev pub with_database : MssqlConnectOptions → Text → MssqlConnectOptions
with_database o database = record o { database = database }

abbrev pub encrypt : MssqlConnectOptions → Bool → MssqlConnectOptions
encrypt o enabled = record o { encryption = if enabled then on else prefer_off }

abbrev pub trust_certificate : MssqlConnectOptions → Bool → MssqlConnectOptions
trust_certificate o enabled = record o { trust_server_certificate = enabled }

-- What `client_context` sets of mssql-tds's `ClientContext`.
pub record ClientContext : Type 0 where
  pub user_name : Text
  pub password : Text
  pub database : Text
  pub mode : MssqlEncryption
  pub trust_server_certificate : Bool
  pub host_name_in_cert : Option Text
  pub server_certificate : Option Text
  pub application_name : Text
  pub connect_timeout : ℕ

abbrev name_or : Text → Option Text → Text
name_or d none = d
name_or d (some name) = name

-- `u32::try_from(seconds).unwrap_or(u32::MAX)`.
abbrev timeout_or : ℕ → Option ℕ → ℕ
timeout_or d none = d
timeout_or d (some seconds) = if leb seconds 4294967295 then seconds else 4294967295

-- On top of `ClientContext::default()`.
unfoldable pub client_context : ClientContext → MssqlConnectOptions → ClientContext
client_context context o = record context {
  user_name = o.username;
  password = o.password;
  database = o.database;
  mode = o.encryption;
  trust_server_certificate = o.trust_server_certificate;
  host_name_in_cert = o.host_name_in_cert;
  server_certificate = o.server_certificate;
  application_name = name_or context.application_name o.application_name;
  connect_timeout = timeout_or context.connect_timeout o.connect_timeout;
}

abbrev quoted : Text → Text
quoted s = codes "`" ++ (s ++ codes "`")

abbrev pub bool_of : Text → Option Bool
bool_of s =
    if text_eq s (codes "true") || (text_eq s (codes "yes") || text_eq s (codes "1"))
    then some true
    else if text_eq s (codes "false") || (text_eq s (codes "no") || text_eq s (codes "0"))
    then some false
    else none

unfoldable pub parse_bool : Text → Text → Result OptionsError Bool
parse_bool key value = elim (bool_of (to_ascii_lowercase value)) [
  | some b ↦ ok b
  | none ↦ err (
      configuration
        (quoted key ++ (codes " must be a boolean, got " ++ quoted (to_ascii_lowercase value))))
]

abbrev pub mode_of : Text → Option MssqlEncryption
mode_of s =
    if text_eq s (codes "on")
    then some on
    else if text_eq s (codes "required")
    then some required
    else if text_eq s (codes "strict")
    then some strict
    else if text_eq s (codes "off")
        || (text_eq s (codes "prefer-off") || text_eq s (codes "prefer_off"))
    then some prefer_off
    else none

abbrev encryption_of_bool :
    Text → Text → Result OptionsError Bool → Result OptionsError MssqlEncryption
encryption_of_bool key value (ok enabled) = ok (if enabled then on else prefer_off)
encryption_of_bool key value (err _) = err (
    configuration (
      quoted key
      ++ (codes " must be one of `on`, `required`, `strict` or `off`, got " ++ quoted value)))

unfoldable pub parse_encryption : Text → Text → Result OptionsError MssqlEncryption
parse_encryption key value = elim (mode_of (to_ascii_lowercase value)) [
  | some mode ↦ ok mode
  | none ↦ encryption_of_bool key value (parse_bool key value)
]

-- `u8::from_str_radix(hex, 16)` of two bytes; a plus sign may stand before a digit.
abbrev pub hex_digit : ℕ → Option ℕ
hex_digit c =
    if leb 48 c && leb c 57
    then some (c - 48)
    else if leb 65 c && leb c 70
    then some (c - 55)
    else if leb 97 c && leb c 102
    then some (c - 87)
    else none

abbrev both_digits : Option ℕ → Option ℕ → Option ℕ
both_digits (some a) (some b) = some (a * 16 + b)
both_digits _ _ = none

abbrev pub hex_byte : ℕ → ℕ → Option ℕ
hex_byte a b = if a == b'+' then hex_digit b else both_digits (hex_digit a) (hex_digit b)

-- The loop of `percent_decode`, on the bytes that are left.
unfoldable pub percent_decode_loop : Text → Text
percent_decode_loop (c ∷ a ∷ b ∷ rest) =
    let decoded = percent_decode_loop rest in
    let kept = percent_decode_loop (a ∷ b ∷ rest) in
    if c == b'%'
    then elim (hex_byte a b) [ some byte ↦ byte ∷ decoded | none ↦ c ∷ kept ]
    else c ∷ kept
percent_decode_loop s = s

-- `percent_decode` before its bytes are read as UTF-8.
unfoldable pub percent_decode_bytes : Text → Text
percent_decode_bytes input = if not (holds b'%' input) then input else percent_decode_loop input
