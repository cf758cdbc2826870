-- ===== src/Multiaddr/Accepts.antt =====
-- Which texts are addresses, and what the addresses hold.
use c_libp2p.Base.{ℕ, ◌+◌, ◌-◌, ◌*◌, ◌%◌, ◌^◌, ◌≤◌, ◌<◌, ◌≡◌, ◌≢◌, refl, ap, ◌∙◌, List, [], ◌∷◌}
use c_libp2p.Base.{some, true, false, ◌==◌, if◌then◌else◌, if_true}
use c_libp2p.Base.{
  length, take, take_all, All, arith, codes, tokens, tokens_sep, tokens-joined, joined, IsName,
  bytes_eq,
}
use c_libp2p.Transport.{ok, failed}
use c_libp2p.Multiaddr.{
  MultiAddress, slash, af_inet, af_inet6, atoi_port, parse, blank, completed, new_from_string,
}
use c_libp2p.Multiaddr.{
  other, part_of, round, set_port, is_digit, digits_from, signed_port, skip_spaces,
}

-- a decimal numeral, and what it says
abbrev pub IsNumeral : List ℕ → Type 0
IsNumeral = All (λ b. (48 ≤ b) × (b ≤ 57))

abbrev pub numeral : ℕ → List ℕ → ℕ
numeral n [] = n
numeral n (b ∷ bs) = numeral (n * 10 + (b - 48)) bs

digits_numeral : (n : ℕ) (ds : List ℕ) → IsNumeral ds → digits_from n ds ≡ numeral n ds
digits_numeral n [] h = refl
digits_numeral n (b ∷ ds) h =
    let d : is_digit b ≡ true = ground (arith, h.0) in
    if_true (is_digit b) _ _ d ∙ digits_numeral (n * 10 + (b - 48)) ds h.1

-- the port that a numeral sets
port_numeral :
    (ds : List ℕ)
    → ds ≢ []
    → IsNumeral ds
    → numeral 0 ds < 2 ^ 31
    → atoi_port ds ≡ some (numeral 0 ds % 2 ^ 16)
unfolding atoi_port
port_numeral [] e h small = absurd (e refl)
port_numeral (b ∷ ds) e h small = whole
  where
    fits : digits_from 0 (b ∷ ds) < 2 ^ 31
    fits = rw (digits_numeral 0 (b ∷ ds) h) small

    whole : signed_port (skip_spaces (b ∷ ds)) ≡ some (numeral 0 (b ∷ ds) % 2 ^ 16)
    whole = ground (arith, fits, digits_numeral 0 (b ∷ ds) h, h.0)

pub data Family : Type 0 where
  v4 v6 : Family

abbrev pub family_name : Family → List ℕ
family_name v4 = codes "ip4"
family_name v6 = codes "ip6"

abbrev pub family_number : Family → ℕ
family_number v4 = af_inet
family_number v6 = af_inet6

-- a token that the loop looks at and passes over
abbrev pub IsOther : List ℕ → Type 0
IsOther token =
    (bytes_eq token (codes "ip4") ≡ false)
    × (bytes_eq token (codes "ip6") ≡ false)
    × (bytes_eq token (codes "tcp") ≡ false)

part_other : (token : List ℕ) → IsOther token → part_of token ≡ other
unfolding part_of
part_other token (h4, h6, ht) = rw (h4, h6, ht) refl

parse_others : (ts : List (List ℕ)) (ma : MultiAddress) → All IsOther ts → parse ts ma ≡ ok ma
unfolding parse
parse_others [] ma h = refl
parse_others (t ∷ []) ma h = refl
parse_others (t ∷ u ∷ ts) ma (h, hs) =
    ap (λ p. round p u (parse ts) (parse (u ∷ ts)) ma) (part_other t h)
    ∙ parse_others (u ∷ ts) ma hs

-- the address of a host and a port
abbrev pub host : List ℕ → Family → List ℕ → ℕ → MultiAddress
host str family ip port = record {
  raw_string = str;
  family = family_number family;
  ip = some ip;
  port = port;
}

parse-host :
    (str : List ℕ) (family : Family) (ip ds : List ℕ) (others : List (List ℕ)) (port : ℕ)
    → atoi_port ds ≡ some port
    → All IsOther others
    → parse (family_name family ∷ ip ∷ codes "tcp" ∷ ds ∷ others) (blank str)
      ≡ ok (host str family ip port)
unfolding parse part_of bytes_eq
parse-host str v4 ip ds others port e h =
    ap (λ o. set_port o (parse others) (host str v4 ip 0)) e
    ∙ parse_others others (host str v4 ip port) h
parse-host str v6 ip ds others port e h =
    ap (λ o. set_port o (parse others) (host str v6 ip 0)) e
    ∙ parse_others others (host str v6 ip port) h

-- `/ip4/<ip>/tcp/<digits>` or the same with `ip6`, and other parts after it
abbrev pub address_text : Family → List ℕ → List ℕ → List (List ℕ) → List ℕ
address_text family ip ds others =
    slash ∷ joined slash (family_name family) (ip ∷ codes "tcp" ∷ ds ∷ others)

numeral-IsName : (ds : List ℕ) → ds ≢ [] → IsNumeral ds → IsName slash ds
numeral-IsName ds e h = record { nonempty = e; text = no_nul ds h; word = no_slash ds h }
  where
    no_nul : (ds : List ℕ) → IsNumeral ds → All (λ b. b ≢ 0) ds
    no_nul [] h = tt
    no_nul (b ∷ ds) h = ((λ e. absurd (omega (arith, h.0))), no_nul ds h.1)

    no_slash : (ds : List ℕ) → IsNumeral ds → All (λ b. b ≢ slash) ds
    no_slash [] h = tt
    no_slash (b ∷ ds) h = ((λ e. absurd (omega (arith, h.0))), no_slash ds h.1)

letters : (a b c : ℕ) → 47 < a → 47 < b → 47 < c → IsName slash (a ∷ b ∷ c ∷ [])
letters a b c ha hb hc = record {
  nonempty = λ e. cc;
  text = (
    (λ e. absurd (omega arith)),
    ((λ e. absurd (omega arith)), ((λ e. absurd (omega arith)), tt)),
  );
  word = (
    (λ e. absurd (omega arith)),
    ((λ e. absurd (omega arith)), ((λ e. absurd (omega arith)), tt)),
  );
}

family-IsName : (family : Family) → IsName slash (family_name family)
family-IsName v4 = letters 105 112 52 (omega arith) (omega arith) (omega arith)
family-IsName v6 = letters 105 112 54 (omega arith) (omega arith) (omega arith)

tokens_text :
    (family : Family) (ip ds : List ℕ) (others : List (List ℕ))
    → IsName slash ip
    → ds ≢ []
    → IsNumeral ds
    → All (IsName slash) others
    → length (address_text family ip ds others) ≤ 255
    → tokens slash (take 255 (address_text family ip ds others))
      ≡ family_name family ∷ ip ∷ codes "tcp" ∷ ds ∷ others
tokens_text family ip ds others hip nonempty h hs fits =
    ap (tokens slash) (take_all 255 (address_text family ip ds others) fits)
    ∙ tokens_sep slash (joined slash (family_name family) (ip ∷ codes "tcp" ∷ ds ∷ others))
    ∙ tokens-joined slash (family_name family) (ip ∷ codes "tcp" ∷ ds ∷ others)
        (family-IsName family)
        (
          hip,
          (
            letters 116 99 112 (omega arith) (omega arith) (omega arith),
            (numeral-IsName ds nonempty h, hs),
          ),
        )

-- A text of at most 255 bytes that names an IP address and then a TCP port, an int in decimal, with
-- no further `ip4`, `ip6` or `tcp` after it, is the address of that host, with the port modulo
-- 65536. It is refused where that is 0.
pub new_from_string_lem :
    (family : Family) (ip ds : List ℕ) (others : List (List ℕ))
    → IsName slash ip
    → ds ≢ []
    → IsNumeral ds
    → numeral 0 ds < 2 ^ 31
    → All (IsName slash) others
    → All IsOther others
    → length (address_text family ip ds others) ≤ 255
    → new_from_string (address_text family ip ds others) ≡ (
        if numeral 0 ds % 2 ^ 16 == 0
        then failed
        else ok (host (address_text family ip ds others) family ip (numeral 0 ds % 2 ^ 16)))
unfolding new_from_string
new_from_string_lem family ip ds others hip nonempty h small hs ho fits =
    let str : List ℕ = address_text family ip ds others in
    ap (λ ts. completed (parse ts (blank str)))
      (tokens_text family ip ds others hip nonempty h hs fits)
    ∙ ap completed (
        parse-host str family ip ds others (numeral 0 ds % 2 ^ 16)
          (port_numeral ds nonempty h small) ho)
