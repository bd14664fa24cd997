-- ===== src/AaUtil/Scheme.antt =====
-- Names of authentication schemes.
use cern_httpd.Base.{◌≡◌, some, ◌++◌, map}
use cern_httpd.Str.{CStr, to_upper}
use cern_httpd.AaUtil.{
  HtaaScheme, unknown, none_scheme, basic, pubkey, kerberos_v4, kerberos_v5, scheme_enum,
  scheme_name,
}

-- The name of each scheme, whatever follows it and in any case of letters, is read as the scheme.
scheme_enum-scheme_name :
    (scheme : HtaaScheme) (name rest : CStr)
    → map to_upper name ≡ map to_upper (scheme_name scheme ++ rest)
    → scheme_enum (some name) ≡ scheme
unfolding scheme_enum scheme_name
scheme_enum-scheme_name none_scheme name rest h = rw h
scheme_enum-scheme_name basic name rest h = rw h
scheme_enum-scheme_name pubkey name rest h = rw h
scheme_enum-scheme_name kerberos_v4 name rest h = rw h
scheme_enum-scheme_name kerberos_v5 name rest h = rw h
scheme_enum-scheme_name unknown name rest h = rw h
