-- ===== src/Protobuf/Tests.antt =====
-- An encoding with a tag of one byte, and varints as they are.
use c_libp2p.Base.{
  ℕ, zero, suc, ◌+◌, ◌-◌, ◌*◌, ◌/◌, ◌%◌, ◌≤◌, ◌<◌, ◌^◌, ◌≡◌, refl, ap₂, List, [], ◌∷◌, ◌++◌,
}
use c_libp2p.Base.{
  Option, none, some, length, take, drop, leb, ltb, true, false, if◌then◌else◌, if_true, inl, inr,
  Bool-cases,
}
use c_libp2p.Base.{length-append, take_drop_lem, arith}
use native.Mathlib.Nat.{pow-suc}
use c_libp2p.Protobuf.{Protobuf, IsProtobuf, IsVarint, length_delimited}

-- nine groups of seven bits, and the rest
abbrev pub groups : ℕ → ℕ → List ℕ
groups zero n = n ∷ []
groups (suc fuel) n = if ltb n 128 then n ∷ [] else (128 + n % 128) ∷ groups fuel (n / 128)

abbrev pub ungroup : List ℕ → ℕ × ℕ
ungroup [] = (0, 0)
ungroup (b ∷ bs) =
    let (v, k) = ungroup bs in if ltb b 128 then (b, 1) else (b - 128 + 128 * v, k + 1)

abbrev pub plain_size : ℕ → List ℕ
plain_size = groups 9

abbrev pub plain_field : ℕ → List ℕ → List ℕ
plain_field field text = (field ∷ []) ++ plain_size (length text) ++ text

abbrev pub plain_encode : ℕ → List ℕ → ℕ → Option (List ℕ)
plain_encode field text room =
    if leb (length (plain_field field text)) room then some (plain_field field text) else none

abbrev pub plain_tag : List ℕ → Option (ℕ × ℕ × ℕ)
plain_tag [] = none
plain_tag (field ∷ bs) = some (field, length_delimited, 1)

abbrev pub plain_string : List ℕ → Option (List ℕ × ℕ)
plain_string bs =
    let (n, k) = ungroup bs in
    if leb n (length (drop k bs)) then some (take n (drop k bs), k + n) else none

abbrev pub plain : Protobuf
plain = record {
  encode_bytes = plain_encode;
  encode_string = plain_encode;
  decode_string = plain_string;
  decode_bytes = plain_string;
  encode_varint = plain_size;
  decode_field = plain_tag;
  varint = ungroup;
}

pub encode_fits :
    (field : ℕ) (text : List ℕ) (room : ℕ)
    → length (plain_field field text) ≤ room
    → plain_encode field text room ≡ some (plain_field field text)
encode_fits field text room h =
    if_true (leb (length (plain_field field text)) room) _ none (ground arith)

pub ungroup-groups :
    (fuel n : ℕ) (rest : List ℕ)
    → n < 128 ^ suc fuel
    → ungroup (groups fuel n ++ rest) ≡ (n, length (groups fuel n))
ungroup-groups zero n rest h = if_true (ltb n 128) _ _ (ground arith)
ungroup-groups (suc fuel) n rest h = elim (Bool-cases (ltb n 128)) [
  | inl e ↦ rw e (if_true (ltb n 128) _ _ e)
  | inr e ↦
      let ih = ungroup-groups fuel (n / 128) rest (omega (arith, h, pow-suc 128 (suc fuel))) in
      let b : ℕ = 128 + n % 128 in
      let big : ltb b 128 ≡ false = ground arith in
      rw (e, big, ih) (ap₂ (λ v k. (v, k)) (value n) (omega arith))
]
  where
    value : (n : ℕ) → 128 + n % 128 - 128 + 128 * (n / 128) ≡ n
    value n = omega arith

pub groups_pos : (fuel n : ℕ) → 0 < length (groups fuel n)
groups_pos zero n = omega arith
groups_pos (suc fuel) n = ground arith

pub groups_short : (fuel n : ℕ) → length (groups fuel n) ≤ suc fuel
groups_short zero n = omega arith
groups_short (suc fuel) n = ground (arith, groups_short fuel (n / 128))

pub groups-IsVarint : (fuel n : ℕ) → n < 128 ^ suc fuel → IsVarint (groups fuel n)
groups-IsVarint zero n h = omega arith
groups-IsVarint (suc fuel) n h = elim (Bool-cases (ltb n 128)) [
  | inl e ↦ rw e (ground arith)
  | inr e ↦ rw e (
      longer (128 + n % 128) (groups fuel (n / 128)) (omega arith) (omega arith)
        (groups-IsVarint fuel (n / 128) (omega (arith, h, pow-suc 128 (suc fuel)))))
]
  where
    longer : (b : ℕ) (bs : List ℕ) → 128 ≤ b → b < 256 → IsVarint bs → IsVarint (b ∷ bs)
    longer b [] h h' v = elim v [ ]
    longer b (c ∷ bs) h h' v = (h, h', v)

pub decode_string_plain :
    (text rest : List ℕ)
    → length text < 2 ^ 64
    → plain_string (plain_size (length text) ++ (text ++ rest))
      ≡ some (text, length (plain_size (length text)) + length text)
decode_string_plain text rest h =
    let n : ℕ = length text in
    let e = ungroup-groups 9 n (text ++ rest) (omega arith) in
    let tail = (take_drop_lem (plain_size n) (text ++ rest) (length (plain_size n)) refl).1 in
    let fits : leb n (length (text ++ rest)) ≡ true = ground (arith, length-append text rest) in
    rw (e, tail, fits, (take_drop_lem text rest n refl).0) refl

abbrev pub plain_lawful : IsProtobuf plain
plain_lawful = record {
  tag = λ field. field ∷ [];
  size = plain_size;
  encode_lem = encode_fits;
  encode_string_lem = encode_fits;
  decode_string_lem = decode_string_plain;
  decode_bytes_lem = decode_string_plain;
  encode_varint_lem = λ n. refl;
  decode_tag = λ field rest. refl;
  varint-size = λ n rest h. ungroup-groups 9 n rest (omega (arith, h));
  tag_short = λ field h. refl;
  tag_pos = λ field. omega arith;
  size_pos = groups_pos 9;
  size-IsVarint = λ n h. groups-IsVarint 9 n (omega (arith, h));
  size_short = λ n h. groups_short 9 n;
}
