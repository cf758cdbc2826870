-- ===== src/UrlEncode/Tests.antt =====
-- Two texts, and the theorems at them.
use c_libp2p.Base.{ℕ, ◌≡◌, refl, List, [], ◌∷◌, ◌++◌, some, codes, arith, true, false, inl}
use c_libp2p.UrlEncode.{encoded, overrun, url_encode, url_decode, isalnum, hex}
use c_libp2p.UrlEncode.Escapes.{url_decode-url_encode, url_encode_overflows}

letter : isalnum 97 ≡ true
unfolding isalnum
letter = refl

url_decode-url_encode_example :
    (es : List ℕ) × (url_encode (codes "a/b") ≡ encoded (es ++ (0 ∷ [])))
    × (url_decode es ≡ some (codes "a/b"))
url_decode-url_encode_example =
    url_decode-url_encode (codes "a/b") (omega arith, (omega arith, (omega arith, tt))) (inl letter)

abbrev slash : List ℕ
slash = 47 ∷ []

slash_is_special : isalnum 47 ≡ false
unfolding isalnum
slash_is_special = refl

url_encode_overflows_example : url_encode slash ≡ overrun
url_encode_overflows_example = url_encode_overflows slash ((slash_is_special, omega arith), tt)

encoded_slash : url_encode (codes "a/b") ≡ encoded (codes "a%2fb" ++ (0 ∷ []))
unfolding url_encode isalnum hex
encoded_slash = refl
