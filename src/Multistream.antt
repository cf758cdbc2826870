-- ===== src/Multistream.antt =====
-- v2/src/conn/multistream.c: messages with a length prefix, and the negotiation of a protocol.
-- A function of the C code that takes a stream is a run over its state; `1` is `ok tt`, `0` is
-- `failed`. `malloc` is taken to succeed, and the log lines are left out.
pub mod Varint
pub mod Framing
pub mod Limits
pub mod Texts
mod Tests
pub mod Dialer
pub mod Listener
pub mod Agreement
use c_libp2p.Base.{ℕ, zero, suc, ◌+◌, ◌*◌, ◌/◌, ◌%◌, ◌^◌, List, [], ◌∷◌, ◌++◌, Option, none, some}
use c_libp2p.Base.{bit_and, bit_or, Bool, false, not, ◌==◌, ltb, leb, if◌then◌else◌}
use c_libp2p.Base.{bytes_eq, length, take, codes, c_string}
use c_libp2p.Transport.{Transport, Res, ok, failed, undefined, stuck, M, ◌>>=◌, ◌>>◌, pure, fail}
use c_libp2p.Transport.{guard, attempt, read_byte, read_full, write_full}

-- MULTISTREAM_MSG_HEADER
abbrev pub header : List ℕ
header = codes "/multistream/1.0.0" ++ (10 ∷ [])

-- the size of the buffers `response`, `formatted_proto`, `msg` and `confirm`
abbrev pub buffer_size : ℕ
buffer_size = 256

-- `strcmp(a, b) == 0`
abbrev pub str_eq : List ℕ → List ℕ → Bool
str_eq a b = bytes_eq (c_string a) (c_string b)

-- `snprintf(buf, sizeof(buf), "%s\n", s)`
abbrev pub line : List ℕ → List ℕ
line s = take 255 (c_string s ++ (10 ∷ []))

-- The do-while loop that fills `header`, which has room for 10 bytes.
pub len_rounds : ℕ → ℕ → List ℕ
len_rounds zero temp = []
len_rounds (suc room) temp =
    let group = bit_and temp 0x7f % 256 in
    let rest = len_rounds room (temp / 128) in
    if ltb 0 (temp / 128) then bit_or group 0x80 ∷ rest else group ∷ []

unfoldable pub len_prefix : ℕ → List ℕ
unfolding len_rounds
len_prefix n = len_rounds 10 n

-- `size_t` shift and or
abbrev pub add_group : ℕ → ℕ → ℕ → ℕ
add_group acc byte shift = bit_or acc (bit_and byte 0x7f * 2 ^ shift % 2 ^ 64)

-- `if (len > 0 && msg[len - 1] == '\n') msg[len - 1] = '\0';`
unfoldable pub trim : List ℕ → List ℕ
trim [] = []
trim (b ∷ []) = if b == 10 then [] else b ∷ []
trim (b ∷ c ∷ bs) = b ∷ trim (c ∷ bs)

-- `expected_protocol != NULL && strcmp(msg, expected_protocol) != 0`
abbrev pub is_refused : Option (List ℕ) → List ℕ → Bool
is_refused none msg = false
is_refused (some expected) msg = not (str_eq msg expected)

module _ (t : Transport) where
  open t use {State, read, write}

  -- write_length_prefixed_msg
  unfoldable pub write_msg : List ℕ → M State (Unit {0})
  write_msg msg = let body = c_string msg in write_full t (len_prefix (length body) ++ body)

  -- The varint loop, with `fuel` rounds at most. A shift by 64 or more is undefined behaviour; so 11
  -- rounds are enough.
  unfoldable pub read_len_rounds : ℕ → ℕ → ℕ → M State ℕ
  read_len_rounds zero acc shift = λ s. (stuck, s)
  read_len_rounds (suc fuel) acc shift = do
    byte ← read_byte t
    let acc' = add_group acc byte shift
    let more = read_len_rounds fuel acc' (shift + 7)
    if leb 64 shift
        then (λ s. (undefined, s))
        else if bit_and byte 0x80 == 0
        then pure acc'
        else more

  unfoldable pub read_len : M State ℕ
  unfolding read_len_rounds
  read_len = read_len_rounds 11 0 0

  -- read_length_prefixed_msg: the bytes that are put before the final NUL
  unfoldable pub read_msg : ℕ → M State (List ℕ)
  read_msg max_len = do guard (ltb 0 max_len); n ← read_len; guard (ltb n max_len); read_full t n

  -- libp2p_v2_net_multistream_connect
  unfoldable pub connect : M State (Unit {0})
  connect = do write_msg header; response ← read_msg buffer_size; guard (str_eq response header)

  -- libp2p_net_multistream_negotiate_protocol
  unfoldable pub negotiate : List ℕ → M State (Unit {0})
  negotiate protocol = do
    write_msg (line protocol)
    response ← read_msg buffer_size
    guard (str_eq response (line protocol))

  -- libp2p_net_multistream_accept
  unfoldable pub accept : Option (List ℕ) → M State (Unit {0})
  accept expected = do
    hello ← read_msg buffer_size
    guard (str_eq hello header)
    write_msg header
    proposal ← read_msg buffer_size
    let msg = trim (c_string proposal)
    if is_refused expected msg
        then (attempt (write_msg (codes "na" ++ (10 ∷ []))) >> fail)
        else write_msg (line msg)
