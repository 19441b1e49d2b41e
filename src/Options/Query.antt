-- ===== src/Options/Query.antt =====
-- What the query of a connection URL can change, in options.rs.
use mathlib.Core.Path.{subst}
use sqlx_mssql_rs.Prelude.{
  ◌≡◌, refl, sym, ap, ◌∙◌, Bool, true, false, not, ◌||◌, Option, none, some, List, [], ◌∷◌, Text,
  codes, text_eq, if◌then◌else◌,
}
use sqlx_mssql_rs.Prelude.Ascii.{eq_ignore_ascii_case, trim}
use sqlx_mssql_rs.Options.{Result, ok, err, MssqlConnectOptions, on, parse_encryption, parse_bool}
use sqlx_mssql_rs.Options.Url.{
  Url, map_ok, with_parameter, then_with, with_parameters, of_authority, with_host, of_url,
  from_str,
}

abbrev OnOkAt : {X A : Type 0} → (A → Type 0) → Result X A → Type 0
OnOkAt Q (ok a) = Q a
OnOkAt Q (err _) = Unit

-- A property of the value, if there is one.
record OnOk {X A : Type 0} (Q : A → Type 0) (r : Result X A) : Type 0 where
  pub holds : OnOkAt Q r

OnOk-if :
    {X A : Type 0} {Q : A → Type 0} (b : Bool) (x y : Result X A)
    → (b ≡ true → OnOk Q x)
    → (b ≡ false → OnOk Q y)
    → OnOk Q (if b then x else y)
OnOk-if true x y h k = h refl
OnOk-if false x y h k = k refl

OnOk-ok : {X A : Type 0} {Q : A → Type 0} (a : A) → Q a → OnOk {X = X} Q (ok a)
OnOk-ok a h = record { holds = h }

OnOk-map_ok :
    {X A B : Type 0} {Q : B → Type 0} (f : A → B) (r : Result X A)
    → ((a : A) → Q (f a))
    → OnOk Q (map_ok f r)
OnOk-map_ok f (ok a) h = record { holds = h a }
OnOk-map_ok f (err _) h = record { holds = tt }

OnOk-mono :
    {X A : Type 0} {Q Q' : A → Type 0} (r : Result X A)
    → OnOk Q r
    → ((a : A) → Q a → Q' a)
    → OnOk Q' r
OnOk-mono (ok a) h k = record { holds = k a h.holds }
OnOk-mono (err _) h k = record { holds = tt }

OnOk-then_with :
    {X A B : Type 0} {Q : A → Type 0} {Q' : B → Type 0} (r : Result X A) (f : A → Result X B)
    → OnOk Q r
    → ((a : A) → Q a → OnOk Q' (f a))
    → OnOk Q' (then_with r f)
OnOk-then_with (ok a) f h k = k a h.holds
OnOk-then_with (err _) f h k = record { holds = tt }

-- Whether a pair has the key.
abbrev pub has : Text → List (Text × Text) → Bool
has key [] = false
has key ((k, _) ∷ pairs) = text_eq k key || has key pairs

or_false : (a b : Bool) → (a || b) ≡ false → (a ≡ false) × (b ≡ false)
or_false true b h = cc
or_false false b h = (refl, h)

-- The certificate is validated as before, and the encryption is the same, as far as the key is not
-- the one that changes it.
abbrev Kept : MssqlConnectOptions → Bool → Bool → MssqlConnectOptions → Type 0
Kept o trusts encrypts o' =
    (trusts ≡ false → o'.trust_server_certificate ≡ o.trust_server_certificate)
    × (encrypts ≡ false → o'.encryption ≡ o.encryption)

with_parameter-Kept :
    (o : MssqlConnectOptions) (key value : Text)
    → OnOk
        (Kept o (text_eq key (codes "trust_certificate")) (text_eq key (codes "encrypt")))
        (with_parameter o (key, value))
unfolding with_parameter
with_parameter-Kept o key value =
    OnOk-if (text_eq key (codes "database")) _ _ (λ _. OnOk-ok _ (λ _. refl, λ _. refl))
      (λ _.
        OnOk-if (text_eq key (codes "encrypt")) _ _
          (λ e. OnOk-map_ok _ (parse_encryption key value) (λ _. (λ _. refl, λ n. cc)))
          (λ _.
            OnOk-if (text_eq key (codes "trust_certificate")) _ _
              (λ e. OnOk-map_ok _ (parse_bool key value) (λ _. (λ n. cc, λ _. refl)))
              (λ _.
                OnOk-if (text_eq key (codes "server_certificate")) _ _
                  (λ _. OnOk-ok _ (λ _. refl, λ _. refl))
                  (λ _.
                    OnOk-if (text_eq key (codes "host_name_in_cert")) _ _
                      (λ _. OnOk-ok _ (λ _. refl, λ _. refl))
                      (λ _.
                        OnOk-if (text_eq key (codes "application_name")) _ _
                          (λ _. OnOk-ok _ (λ _. refl, λ _. refl))
                          (λ _.
                            OnOk-if (text_eq key (codes "connect_timeout")) _ _
                              (λ _. OnOk-map_ok _ _ (λ _. (λ _. refl, λ _. refl)))
                              (λ _. OnOk-ok _ (λ _. refl, λ _. refl))))))))

Kept-then :
    (o o' o'' : MssqlConnectOptions) (a b c d : Bool)
    → Kept o a b o'
    → Kept o' c d o''
    → Kept o (a || c) (b || d) o''
Kept-then o o' o'' a b c d h k = (
  λ e. let (e', e'') = or_false a c e in k.0 e'' ∙ h.0 e',
  λ e. let (e', e'') = or_false b d e in k.1 e'' ∙ h.1 e',
)

with_parameters-Kept :
    (pairs : List (Text × Text)) (o : MssqlConnectOptions)
    → OnOk
        (Kept o (has (codes "trust_certificate") pairs) (has (codes "encrypt") pairs))
        (with_parameters pairs o)
with_parameters-Kept [] o = OnOk-ok o (λ _. refl, λ _. refl)
with_parameters-Kept ((key, value) ∷ pairs) o =
    OnOk-then_with (with_parameter o (key, value)) (with_parameters pairs)
      (with_parameter-Kept o key value)
      (λ o' h.
        OnOk-mono (with_parameters pairs o') (with_parameters-Kept pairs o')
          (λ o'' k. Kept-then o o' o'' _ _ _ _ h k))

module _ (parse : Text → Result Text Url) (utf8_lossy : Text → Text) where
  abbrev Guarded : Url → MssqlConnectOptions → Type 0
  Guarded url o =
      (has (codes "trust_certificate") url.query_pairs ≡ false → o.trust_server_certificate ≡ false)
      × (has (codes "encrypt") url.query_pairs ≡ false → o.encryption ≡ on)

  of_url-Guarded :
      (trimmed : Text) (url : Url) → OnOk (Guarded url) (of_url parse utf8_lossy trimmed (ok url))
  of_url-Guarded trimmed url =
      OnOk-if (not (eq_ignore_ascii_case url.scheme (codes "mssql"))) _ _
        (λ _. record { holds = tt }) (λ _. with_host-Guarded url.host_str)
    where
      with_host-Guarded :
          (host : Option Text) → OnOk (Guarded url) (with_host parse utf8_lossy url host)
      with_host-Guarded none = record { holds = tt }
      with_host-Guarded (some host) =
          OnOk-mono _
            (with_parameters-Kept url.query_pairs (of_authority parse utf8_lossy url host))
            (λ o k. (k.0, k.1))

  -- Options that are read from a URL validate the server's certificate unless the query has the
  -- parameter `trust_certificate`, and they ask for encryption as in the default unless it has the
  -- parameter `encrypt`, whatever else the URL has and however the url crate parses it.
  pub from_str_secure :
      (input : Text) (url : Url) (o : MssqlConnectOptions)
      → parse (trim input) ≡ ok url
      → from_str parse utf8_lossy input ≡ ok o
      → (has (codes "trust_certificate") url.query_pairs ≡ false
          → o.trust_server_certificate ≡ false)
        × (has (codes "encrypt") url.query_pairs ≡ false → o.encryption ≡ on)
  unfolding from_str
  from_str_secure input url o e h =
      let guarded = of_url-Guarded (trim input) url in
      let same : of_url parse utf8_lossy (trim input) (ok url) ≡ ok o =
        ap (of_url parse utf8_lossy (trim input)) (sym e) ∙ h in
      (subst (OnOk (Guarded url)) same guarded).holds
