-- ===== src/Multiaddr.antt =====
-- v2/src/net/multiaddr.c: an address from its text. Memory is taken to be there, and the log is left
-- out. The text ends before its first NUL, as C strings do.
pub mod Accepts
pub mod Complete
mod Tests
use c_libp2p.Base.{
  ℕ, ◌+◌, ◌-◌, ◌*◌, ◌%◌, ◌^◌, List, [], ◌∷◌, Option, none, some, take, codes, tokens,
}
use c_libp2p.Base.{Bool, true, false, ltb, leb, ◌==◌, ◌&&◌, ◌||◌, if◌then◌else◌, bytes_eq}
use c_libp2p.Transport.{Res, ok, failed, undefined}

-- struct MultiAddress
pub record MultiAddress : Type 0 where
  pub raw_string : List ℕ
  pub family : ℕ
  pub ip : Option (List ℕ)
  pub port : ℕ

abbrev pub slash : ℕ
slash = 47

abbrev pub af_inet : ℕ
af_inet = 2

abbrev pub af_inet6 : ℕ
af_inet6 = 10

abbrev pub is_digit : ℕ → Bool
is_digit b = leb 48 b && leb b 57

-- the number at the front of a text, after the digits that gave `n`
abbrev pub digits_from : ℕ → List ℕ → ℕ
digits_from n [] = n
digits_from n (b ∷ bs) = if is_digit b then digits_from (n * 10 + (b - 48)) bs else n

abbrev pub is_space : ℕ → Bool
is_space b = b == 32 || (leb 9 b && leb b 13)

abbrev pub skip_spaces : List ℕ → List ℕ
skip_spaces [] = []
skip_spaces (b ∷ bs) = if is_space b then skip_spaces bs else b ∷ bs

-- `(uint16_t)` of an int and of its negation. `atoi` is undefined beyond an int.
abbrev pub port_of : ℕ → Option ℕ
port_of n = if ltb n (2 ^ 31) then some (n % 2 ^ 16) else none

abbrev pub port_below : ℕ → Option ℕ
port_below n = if leb n (2 ^ 31) then some ((2 ^ 16 - n % 2 ^ 16) % 2 ^ 16) else none

abbrev pub signed_port : List ℕ → Option ℕ
signed_port [] = some 0
signed_port (b ∷ bs) =
    if b == 45
    then port_below (digits_from 0 bs)
    else if b == 43
    then port_of (digits_from 0 bs)
    else port_of (digits_from 0 (b ∷ bs))

-- `(uint16_t)atoi(token)`
unfoldable pub atoi_port : List ℕ → Option ℕ
atoi_port token = signed_port (skip_spaces token)

-- what the loop makes of a token
pub data Part : Type 0 where
  ip4 ip6 tcp other : Part

unfoldable pub part_of : List ℕ → Part
part_of token =
    if bytes_eq token (codes "ip4")
    then ip4
    else if bytes_eq token (codes "ip6")
    then ip6
    else if bytes_eq token (codes "tcp")
    then tcp
    else other

abbrev pub set_port : Option ℕ → (MultiAddress → Res MultiAddress) → MultiAddress → Res MultiAddress
set_port none after ma = undefined
set_port (some port) after ma = after (record ma { port = port })

-- a round of it, with the rounds after a value was taken and after none was
abbrev pub round :
    Part → List ℕ → (after skip : MultiAddress → Res MultiAddress) → MultiAddress → Res MultiAddress
round ip4 next after skip ma = after (record ma { ip = some next; family = af_inet })
round ip6 next after skip ma = after (record ma { ip = some next; family = af_inet6 })
round tcp next after skip ma = set_port (atoi_port next) after ma
round other next after skip ma = skip ma

-- the loop over the tokens
unfoldable pub parse : List (List ℕ) → MultiAddress → Res MultiAddress
parse [] ma = ok ma
parse (token ∷ []) ma = ok ma
parse (token ∷ next ∷ rest) ma = round (part_of token) next (parse rest) (parse (next ∷ rest)) ma

abbrev pub blank : List ℕ → MultiAddress
blank str = record { raw_string = str; family = af_inet; ip = none; port = 0 }

-- the test that follows the loop
abbrev pub complete_with : Option (List ℕ) → MultiAddress → Res MultiAddress
complete_with none ma = failed
complete_with (some ip) ma = if ma.port == 0 then failed else ok ma

abbrev pub complete : MultiAddress → Res MultiAddress
complete ma = complete_with ma.ip ma

abbrev pub completed : Res MultiAddress → Res MultiAddress
completed (ok ma) = complete ma
completed failed = failed
completed undefined = undefined
completed Res.stuck = Res.stuck

-- libp2p_multiaddr_new_from_string, with the copy of the text in a buffer of 256 bytes
unfoldable pub new_from_string : List ℕ → Res MultiAddress
new_from_string [] = failed
new_from_string (b ∷ bs) =
    if b == slash
    then completed (parse (tokens slash (take 255 (b ∷ bs))) (blank (b ∷ bs)))
    else failed
