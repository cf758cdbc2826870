-- ===== src/Noise/Tests.antt =====
-- A cipher that hides nothing, and the theorems over a concrete connection.
use c_libp2p.Base.{sym, ℕ, ◌-◌, ◌≡◌, refl, ap, ◌∙◌, List, [], ◌∷◌, ◌++◌, some, codes, length}
use c_libp2p.Base.{take, arith, length-append}
use c_libp2p.Transport.{ok, failed, write_full}
use c_libp2p.Transport.Wire.{Wire, wire, wire_reliable}
use c_libp2p.Noise.{Cipher, NoiseContext, noise_read, noise_write}
use c_libp2p.Noise.Records.{Authentic, noise_at, record_of, RanNoise, noise_read-Ran}
use c_libp2p.Noise.EndToEnd.{noise_read-noise_write, noise_read_short_header}

abbrev tag : List ℕ
tag = codes "0123456789abcdef"

-- the text before its tag
abbrev untagged : List ℕ → List ℕ
untagged bs = take (length bs - 16) bs

abbrev open_cipher : Cipher
open_cipher = record {
  encrypt = λ key nonce plaintext. some (plaintext ++ tag);
  decrypt = λ key nonce ciphertext. some (untagged ciphertext);
}

front : (bs more : List ℕ) (k : ℕ) → k ≡ length bs → take k (bs ++ more) ≡ bs
front [] more k e = rw e refl
front (b ∷ bs) more k e = rw e (ap (λ l. b ∷ l) (front bs more (length bs) refl))

untagged_lem : (bs : List ℕ) → untagged (bs ++ tag) ≡ bs
untagged_lem bs = front bs tag (length (bs ++ tag) - 16) (omega (arith, length-append bs tag))

some_same : (x y : List ℕ) → some x ≡ some y → x ≡ y
some_same x y e = cc

open_cipher-Authentic : Authentic open_cipher
open_cipher-Authentic = record {
  decrypt-encrypt = λ key nonce plaintext ciphertext e.
      ap some
        (ap untagged (sym (some_same (plaintext ++ tag) ciphertext e)) ∙ untagged_lem plaintext);
  length-encrypt = λ key nonce plaintext ciphertext e.
      ap length (sym (some_same (plaintext ++ tag) ciphertext e)) ∙ length-append plaintext tag;
}

abbrev start : NoiseContext
start = record {
  read_key = codes "k";
  write_key = codes "k";
  read_nonce = 7;
  write_nonce = 7;
  read_buf = [];
  read_pos = 0;
}

-- A connection that gives two bytes first.
abbrev peer : List ℕ → Wire
peer bs = record { inbox = bs; sizes = 1 ∷ 2 ∷ []; outbox = [] }

-- One that gives a byte alone first.
abbrev slow : List ℕ → Wire
slow bs = record { inbox = bs; sizes = 0 ∷ []; outbox = [] }

abbrev hello : List ℕ
hello = codes "hello"

abbrev frame : List ℕ
frame = record_of (hello ++ tag)

noise_read-Ran_example :
    RanNoise wire_reliable
      (peer (frame ++ (9 ∷ [])))
      (ok (codes "he"))
      (record start { read_nonce = 8; read_buf = hello; read_pos = 2 })
      (9 ∷ [])
      []
      (noise_read open_cipher wire 2 (noise_at (peer (frame ++ (9 ∷ []))) start))
noise_read-Ran_example =
    noise_read-Ran wire_reliable open_cipher open_cipher-Authentic start 2 hello (hello ++ tag)
      (9 ∷ []) (omega arith) refl (omega arith) tt refl refl

noise_read-noise_write_example :
    ((noise_write open_cipher wire hello (noise_at (peer []) start)).0 ≡ ok 5)
    × ((noise_read open_cipher wire 5 (noise_at (peer frame) start)).0 ≡ ok hello)
    × ((noise_read open_cipher wire 5 (noise_at (peer frame) start)).1.raw.inbox ≡ [])
    × ((noise_write open_cipher wire hello (noise_at (peer []) start)).1.ctx.write_nonce
        ≡ (noise_read open_cipher wire 5 (noise_at (peer frame) start)).1.ctx.read_nonce)
unfolding noise_write write_full
noise_read-noise_write_example =
    noise_read-noise_write open_cipher open_cipher-Authentic wire_reliable wire_reliable (peer [])
      (peer frame) start start hello (hello ++ tag) frame [] 5 refl refl (omega arith) refl
      (omega arith) tt tt refl refl refl

noise_read_short_header_example :
    RanNoise wire_reliable
      (slow (0 ∷ 21 ∷ []))
      failed
      start
      (21 ∷ [])
      []
      (noise_read open_cipher wire 5 (noise_at (slow (0 ∷ 21 ∷ [])) start))
noise_read_short_header_example =
    noise_read_short_header open_cipher wire_reliable (slow (0 ∷ 21 ∷ [])) start 5 0 (21 ∷ [])
      (omega arith) tt refl refl
