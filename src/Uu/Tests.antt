-- ===== src/Uu/Tests.antt =====
-- The theorems about HTUU.c at concrete bytes.
use cern_httpd.Base.{◌≡◌, refl, arith, codes, take}
use cern_httpd.Uu.{encode, decode}
use cern_httpd.Uu.RoundTrip.{decode-encode}

encode_user : encode (codes "ari:x1") 0 0 ≡ codes "YXJpOngx"
unfolding encode
encode_user = refl

decode-encode_example :
    ((decode (encode (codes "ari:") 0 0) 48).1 ≡ 4)
    × (take 4 (decode (encode (codes "ari:") 0 0) 48).0 ≡ codes "ari:")
decode-encode_example = decode-encode (codes "ari:") 48 (omega arith) (omega arith)
