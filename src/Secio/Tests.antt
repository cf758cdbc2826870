-- ===== src/Secio/Tests.antt =====
-- Two peers with a toy hash and a toy cipher, and the theorems over them.
use c_libp2p.Base.{
  ◌∙◌, ℕ, ◌+◌, ◌≡◌, ◌≢◌, refl, List, [], ◌∷◌, Option, some, none, true, pos, negsuc, codes, length,
  arith, ap, sym, subst, tokens, cut, c_string, bytes_eq,
}
use c_libp2p.Transport.{ok, undefined}
use c_libp2p.Secio.{
  Propose, Chosen, choose_algorithms, select_best, split_list, bytes_compare, hash, determine_order,
  first_match, in_follower,
}
use c_libp2p.Secio.Choice.{IsShared, here, there}
use c_libp2p.Secio.Order.{compared, number, bytes_compare_lem}
use c_libp2p.Secio.Agreement.{IsOrdered, choose_algorithms_agree, choose_algorithms_succeed}
use c_libp2p.Secio.Keys.{cipher_sizes}
use c_libp2p.Secio.Packets.{Counter, Engine, SecioSession, open_session, encrypt}
use c_libp2p.Secio.Exchange.{Lawful, Delivers}
use c_libp2p.Secio.Mirror.{open_session-Delivers, encrypt_sha512}
use c_libp2p.Protobuf.Tests.{plain, plain_lawful}
use c_libp2p.Secio.Proposal.{propose_encode, propose_encode_size, propose_decode}
use c_libp2p.Secio.Offer.{propose_decode-propose_encode}

abbrev twenty : List ℕ → List ℕ
twenty bs =
    1 ∷ 2 ∷ 3 ∷ 4 ∷ 5 ∷ 6 ∷ 7 ∷ 8 ∷ 9 ∷ 10 ∷ 11 ∷ 12 ∷ 13 ∷ 14 ∷ 15 ∷ 16 ∷ 17 ∷ 18 ∷ 19 ∷ 20 ∷ bs

abbrev twelve : List ℕ
twelve = 0 ∷ 0 ∷ 0 ∷ 0 ∷ 0 ∷ 0 ∷ 0 ∷ 0 ∷ 0 ∷ 0 ∷ 0 ∷ 0 ∷ []

abbrev first : List ℕ → ℕ
first [] = 0
first (b ∷ bs) = b

-- 32 bytes, the last of them the first of the text
abbrev toy_hash : List ℕ → List ℕ
toy_hash bs = twenty (0 ∷ 0 ∷ 0 ∷ 0 ∷ 0 ∷ 0 ∷ 0 ∷ 0 ∷ 0 ∷ 0 ∷ 0 ∷ first bs ∷ [])

abbrev alice : Propose
alice = record {
  rand = codes "nonce of alice..";
  public_key = codes "A";
  exchanges = codes "P-256,P-384,P-521";
  ciphers = codes "AES-256,AES-128,Blowfish";
  hashes = codes "SHA256,SHA512";
}

abbrev bob : Propose
bob = record {
  rand = codes "nonce of bob....";
  public_key = codes "B";
  exchanges = codes "P-384,P-256";
  ciphers = codes "Blowfish,AES-256";
  hashes = codes "SHA512,SHA256";
}

abbrev blank : Chosen
blank = record { curve = none; cipher = none; hash = none }

ordered : IsOrdered toy_hash bob alice
unfolding hash
ordered e = absurd (omega (arith, ap (λ bs. last bs) e))
  where
    last : List ℕ → ℕ
    last [] = 0
    last (b ∷ []) = b
    last (b ∷ c ∷ bs) = last (c ∷ bs)

-- alice leads
negotiated : choose_algorithms toy_hash bob alice blank ≡ (
  ok tt,
  record {
    curve = some (codes "P-256");
    cipher = some (codes "AES-256");
    hash = some (codes "SHA256");
  },
)
unfolding choose_algorithms determine_order bytes_compare hash select_best first_match split_list
    tokens cut c_string in_follower bytes_eq
negotiated = refl

choose_algorithms_agree_example :
    choose_algorithms toy_hash bob alice blank ≡ choose_algorithms toy_hash alice bob blank
choose_algorithms_agree_example =
    choose_algorithms_agree toy_hash alice bob blank (λ bs. refl) ordered

choose_algorithms_succeed_example :
    (c : Chosen) × (c1 : List ℕ) × (c2 : List ℕ) × (c3 : List ℕ) × (choose_algorithms toy_hash bob
        alice blank
      ≡ (ok tt, c))
    × (c ≡ record { curve = some c1; cipher = some c2; hash = some c3 })
    × IsShared (split_list alice.exchanges) (split_list bob.exchanges) c1
    × IsShared (split_list alice.ciphers) (split_list bob.ciphers) c2
    × IsShared (split_list alice.hashes) (split_list bob.hashes) c3
unfolding split_list tokens cut c_string
choose_algorithms_succeed_example =
    choose_algorithms_succeed toy_hash alice bob blank (codes "P-384") (codes "AES-256")
      (codes "SHA512") (λ bs. refl) ordered (there here, here) (here, there here) (there here, here)

bytes_compare_lem_example :
    bytes_compare (1 ∷ 255 ∷ []) (2 ∷ 0 ∷ []) 2
    ≡ some (compared (number (1 ∷ 255 ∷ [])) (number (2 ∷ 0 ∷ [])))
bytes_compare_lem_example =
    bytes_compare_lem (1 ∷ 255 ∷ []) (2 ∷ 0 ∷ []) 2 refl refl (omega arith, (omega arith, tt))
      (omega arith, (omega arith, tt))

-- a cipher that hides nothing, but counts
abbrev count : ℕ → Counter → Counter
count n c = record c { nonce_offset = c.nonce_offset + n }

abbrev toy_engine : Engine
toy_engine = record {
  takes_key = λ key. true;
  ctr = λ key c text. some (text, count (length text) c);
  hmac = λ key text. toy_hash text;
}

same_run :
    (x y : List ℕ) (c d : Counter)
    → ◌≡◌ {A = Option (List ℕ × Counter)} (some (x, c)) (some (y, d))
    → (x ≡ y) × (c ≡ d)
same_run x y c d e = (cc, cc)

toy_engine-Lawful : Lawful toy_engine
toy_engine-Lawful = record {
  key_taken = λ key h. refl;
  length-iv = λ key c c' text out h e.
      ap (λ (d : Counter). length d.iv) (sym (same_run text out (count (length text) c) c' e).1)
      ∙ h;
  ctr_runs = λ key c text h iv. (text, count (length text) c, refl);
  ctr-ctr = λ key c c' text out e.
      let (p, q) = same_run text out (count (length text) c) c' e in
      subst (λ o. toy_engine.ctr key c o ≡ some (text, c')) p
        (ap {B = Option (List ℕ × Counter)} (λ d. some (text, d)) q);
  length-ctr =
      λ key c c' text out e. ap length (sym (same_run text out (count (length text) c) c' e).0);
  length-hmac = λ key text. refl;
}

open_session-Delivers_example :
    (a : SecioSession) × (b : SecioSession) × (open_session toy_engine.hmac
        (pos 1)
        (codes "SHA256")
        (codes "AES-256")
        (codes "secret")
      ≡ ok a)
    × (open_session toy_engine.hmac (negsuc 0) (codes "SHA256") (codes "AES-256") (codes "secret")
        ≡ ok b)
    × Delivers toy_engine a b (codes "hi" ∷ codes "there" ∷ [])
    × Delivers toy_engine b a (codes "hello" ∷ [])
unfolding cipher_sizes bytes_eq
open_session-Delivers_example =
    open_session-Delivers toy_engine toy_engine-Lawful (pos 1) (codes "AES-256") (codes "secret") 32
      (codes "hi" ∷ codes "there" ∷ []) (codes "hello" ∷ []) positive refl
  where
    positive : pos 1 ≢ pos 0
    positive e = cc

encrypt_sha512_example :
    (a : SecioSession) × (open_session toy_engine.hmac
        (pos 1)
        (codes "SHA512")
        (codes "AES-256")
        (codes "secret")
      ≡ ok a)
    × ((text : List ℕ) → (encrypt toy_engine text a).0 ≡ undefined)
unfolding cipher_sizes bytes_eq
encrypt_sha512_example =
    encrypt_sha512 toy_engine toy_engine-Lawful (pos 1) (codes "AES-256") (codes "secret") 16 32
      refl

propose_decode-propose_encode_example :
    (bs : List ℕ) × (propose_encode plain alice (propose_encode_size alice) ≡ some bs)
    × (propose_decode plain (255 ∷ 1 ∷ []) bs ≡ ok alice)
propose_decode-propose_encode_example =
    propose_decode-propose_encode plain plain_lawful alice (255 ∷ 1 ∷ []) (omega arith)
