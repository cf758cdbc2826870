-- ===== src/Protobuf/Layout.antt =====
-- A field in a message, with the bytes that follow it.
use c_libp2p.Base.{
  ℕ, ◌≤◌, ◌<◌, [], ◌∷◌, arith, ◌+◌, ◌≡◌, sym, ap, ◌∙◌, List, ◌++◌, length, drop, length-append,
  append_assoc, take_drop_lem,
}
use c_libp2p.Protobuf.{Protobuf, IsProtobuf}

pub drop_two : (pre a b : List ℕ) (n : ℕ) → n ≡ length pre + length a → drop n (pre ++ (a ++ b)) ≡ b
drop_two pre a b n h =
    ap (drop n) (sym (append_assoc pre a b))
    ∙ (take_drop_lem (pre ++ a) b n (h ∙ sym (length-append pre a))).1

-- fields with their numbers
abbrev pub Fields : Type 0
Fields = List (ℕ × List ℕ)

module _ (p : Protobuf) (lawful : IsProtobuf p) where
  open lawful use {tag, size}

  -- a field in a message, with what follows it
  abbrev pub field_then : ℕ → List ℕ → List ℕ → List ℕ
  field_then field text post = tag field ++ (size (length text) ++ (text ++ post))

  -- the position behind the tag and the length
  pub regroup :
      (field : ℕ) (text post : List ℕ)
      → (tag field ++ size (length text) ++ text) ++ post ≡ field_then field text post
  regroup field text post =
      append_assoc (tag field ++ size (length text)) text post
      ∙ append_assoc (tag field) (size (length text)) (text ++ post)

  abbrev pub field_bytes : ℕ → List ℕ → List ℕ
  field_bytes field text = tag field ++ size (length text) ++ text

  abbrev pub message : Fields → List ℕ
  message [] = []
  message ((field, text) ∷ fs) = field_bytes field text ++ message fs

  pub field_pos : (field : ℕ) (text : List ℕ) → 0 < length (field_bytes field text)
  field_pos field text = omega (
    arith,
    length-append (tag field ++ size (length text)) text,
    length-append (tag field) (size (length text)),
    lawful.tag_pos field,
  )

  pub field_size : (field : ℕ) (text : List ℕ) → length text ≤ length (field_bytes field text)
  field_size field text = omega (arith, length-append (tag field ++ size (length text)) text)

  -- A message has as many bytes as fields at least.
  pub length-message : (fs : Fields) → length fs ≤ length (message fs)
  length-message [] = omega arith
  length-message ((field, text) ∷ fs) = omega (
    arith,
    length-message fs,
    field_pos field text,
    length-append (field_bytes field text) (message fs),
  )
