-- ===== src/Multiaddr/Tests.antt =====
-- Addresses, and the theorems over them.
use c_libp2p.Base.{ℕ, ◌≡◌, refl, List, [], ◌∷◌, some, codes, arith}
use c_libp2p.Base.{IsName, bytes_eq, tokens, cut}
use c_libp2p.Transport.{ok, failed}
use c_libp2p.Multiaddr.{slash, new_from_string, parse, part_of, atoi_port}
use c_libp2p.Multiaddr.Accepts.{v4, host, new_from_string_lem}
use c_libp2p.Multiaddr.Complete.{IsComplete, new_from_string-IsComplete}

abbrev text : List ℕ
text = codes "/ip4/10.0.0.1/tcp/4001/ws"

parsed :
    new_from_string text
    ≡ ok (record { raw_string = text; family = 2; ip = some (codes "10.0.0.1"); port = 4001 })
unfolding new_from_string parse part_of atoi_port bytes_eq tokens cut
parsed = refl

-- the last parts win
last_wins :
    new_from_string (codes "/ip4/1/tcp/1/ip6/::/tcp/65538")
    ≡ ok (record {
      raw_string = codes "/ip4/1/tcp/1/ip6/::/tcp/65538";
      family = 10;
      ip = some (codes "::");
      port = 2;
    })
unfolding new_from_string parse part_of atoi_port bytes_eq tokens cut
last_wins = refl

no_port : new_from_string (codes "/ip4/10.0.0.1/udp/4001") ≡ failed
unfolding new_from_string parse part_of atoi_port bytes_eq tokens cut
no_port = refl

negative_port :
    new_from_string (codes "/ip4/1/tcp/-1")
    ≡ ok (record {
      raw_string = codes "/ip4/1/tcp/-1";
      family = 2;
      ip = some (codes "1");
      port = 65535;
    })
unfolding new_from_string parse part_of atoi_port bytes_eq tokens cut
negative_port = refl

ws-IsName : IsName slash (codes "ws")
ws-IsName = record {
  nonempty = λ e. cc;
  text = ((λ e. absurd (omega arith)), ((λ e. absurd (omega arith)), tt));
  word = ((λ e. absurd (omega arith)), ((λ e. absurd (omega arith)), tt));
}

one-IsName : IsName slash (codes "1")
one-IsName = record {
  nonempty = λ e. cc;
  text = ((λ e. absurd (omega arith)), tt);
  word = ((λ e. absurd (omega arith)), tt);
}

-- A port of 65540 is taken for 4.
new_from_string_lem_example :
    new_from_string (codes "/ip4/1/tcp/65540/ws")
    ≡ ok (host (codes "/ip4/1/tcp/65540/ws") v4 (codes "1") 4)
unfolding bytes_eq
new_from_string_lem_example =
    new_from_string_lem v4 (codes "1") (codes "65540") (codes "ws" ∷ []) one-IsName (λ e. cc)
      (
        (omega arith, omega arith),
        (
          (omega arith, omega arith),
          (
            (omega arith, omega arith),
            ((omega arith, omega arith), ((omega arith, omega arith), tt)),
          ),
        ),
      )
      (omega arith) (ws-IsName, tt) ((refl, refl, refl), tt) (omega arith)

new_from_string-IsComplete_example :
    IsComplete text
      (record { raw_string = text; family = 2; ip = some (codes "10.0.0.1"); port = 4001 })
new_from_string-IsComplete_example =
    new_from_string-IsComplete text
      (record { raw_string = text; family = 2; ip = some (codes "10.0.0.1"); port = 4001 }) parsed
