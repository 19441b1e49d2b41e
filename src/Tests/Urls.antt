-- ===== src/Tests/Urls.antt =====
-- Runs and instances of options.rs.
use sqlx_mssql_rs.Prelude.{◌≡◌, refl, false, none, some, [], ◌∷◌, arith, Text, codes, ◌==◌}
use sqlx_mssql_rs.Prelude.Ascii.{eq_ignore_ascii_case}
use sqlx_mssql_rs.Options.{
  Result, ok, MssqlConnectOptions, default, on, percent_decode_loop, percent_decode_bytes,
}
use sqlx_mssql_rs.Options.Url.{Url, with_parameter, from_str}
use sqlx_mssql_rs.Options.Percent.{percent_encode, percent_decode_bytes-percent_encode}
use sqlx_mssql_rs.Options.Query.{has, from_str_secure}

password_run : percent_decode_bytes (codes "p%40ss%2Fword%") ≡ codes "p@ss/word%"
unfolding percent_decode_bytes percent_decode_loop
password_run = refl

percent_decode_bytes-percent_encode_example :
    percent_decode_bytes (percent_encode (λ c. c == b'a') (codes "a%+")) ≡ codes "a%+"
percent_decode_bytes-percent_encode_example =
    percent_decode_bytes-percent_encode (λ c. c == b'a') (codes "a%+") refl
      (omega arith, (omega arith, (omega arith, tt)))

abbrev url : Url
url = record {
  scheme = codes "mssql";
  host_str = some (codes "db");
  port = none;
  username = codes "sa";
  password = some (codes "p%40");
  path = codes "/master";
  query_pairs = (codes "database", codes "other") ∷ [];
}

abbrev parse : Text → Result Text Url
parse _ = ok url

abbrev expected : MssqlConnectOptions
expected = record default {
  host = codes "db";
  username = codes "sa";
  password = codes "p@";
  database = codes "other";
}

url_run : from_str parse (λ s. s) (codes " u ") ≡ ok expected
unfolding from_str with_parameter percent_decode_bytes percent_decode_loop eq_ignore_ascii_case
url_run = refl

from_str_secure_example :
    (has (codes "trust_certificate") url.query_pairs ≡ false
      → expected.trust_server_certificate ≡ false)
    × (has (codes "encrypt") url.query_pairs ≡ false → expected.encryption ≡ on)
from_str_secure_example = from_str_secure parse (λ s. s) (codes " u ") url expected refl url_run
