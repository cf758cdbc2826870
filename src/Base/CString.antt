-- ===== src/Base/CString.antt =====
-- C strings in a byte buffer.
use Prim.Native.Nat.{ℕ}
use Prim.Native.Char.{code}
use Prim.Native.String.{String}
use mathlib.Core.Path.{◌≡◌, refl, sym, ap, ◌∙◌}
use mathlib.Core.Logic.{◌≢◌}
use mathlib.Core.List.{List, [], ◌∷◌, ◌++◌, append-nil}
use native.Mathlib.Omega.{arith}
use c_libp2p.Base.Tests.{◌==◌, ==_refl, if◌then◌else◌, if_true}
use c_libp2p.Base.Lists.{All}

-- The bytes of an ASCII literal.
abbrev pub codes : String → List ℕ
codes String.[] = []
codes (String.◌∷◌ c s) = code c ∷ codes s

-- What `strlen`, `strcmp` and `%s` see of a buffer: the bytes before the first NUL.
unfoldable pub c_string : List ℕ → List ℕ
c_string [] = []
c_string (b ∷ bs) = if b == 0 then [] else b ∷ c_string bs

-- A byte string with no NUL in it.
abbrev pub IsText : List ℕ → Type 0
IsText = All (λ b. b ≢ 0)

pub c_string-text : (bs : List ℕ) → IsText bs → c_string bs ≡ bs
unfolding c_string
c_string-text [] h = refl
c_string-text (b ∷ bs) h = ground (arith, c_string-text bs h.1, h.0)

pub IsText-append : (xs ys : List ℕ) → IsText xs → IsText ys → IsText (xs ++ ys)
IsText-append [] ys hx hy = hy
IsText-append (x ∷ xs) ys hx hy = (hx.0, IsText-append xs ys hx.1 hy)

-- the bytes that `strtok` may put into a token
abbrev pub IsWord : ℕ → List ℕ → Type 0
IsWord sep = All (λ b. b ≢ sep)

-- a token, unless it is empty
abbrev pub flush : List ℕ → List (List ℕ) → List (List ℕ)
flush [] words = words
flush (b ∷ bs) words = (b ∷ bs) ∷ words

-- the bytes before the first separator, and the tokens after it
unfoldable pub cut : ℕ → List ℕ → List ℕ × List (List ℕ)
cut sep [] = ([], [])
cut sep (b ∷ bs) =
    let (word, more) = cut sep bs in if b == sep then ([], flush word more) else (b ∷ word, more)

-- what a first call of `strtok` and then all further ones give, until they give NULL
unfoldable pub tokens : ℕ → List ℕ → List (List ℕ)
unfolding cut
tokens sep bs = flush (cut sep bs).0 (cut sep bs).1

cut-append :
    (sep : ℕ) (w bs : List ℕ)
    → IsWord sep w
    → cut sep (w ++ bs) ≡ (w ++ (cut sep bs).0, (cut sep bs).1)
unfolding cut
cut-append sep [] bs h = refl
cut-append sep (b ∷ w) bs h = ground (arith, cut-append sep w bs h.1, h.0)

cut_sep : (sep : ℕ) (bs : List ℕ) → cut sep (sep ∷ bs) ≡ ([], tokens sep bs)
unfolding cut tokens
cut_sep sep bs = if_true (sep == sep) _ _ (==_refl sep)

pub tokens_sep : (sep : ℕ) (bs : List ℕ) → tokens sep (sep ∷ bs) ≡ tokens sep bs
unfolding tokens
tokens_sep sep bs = rw (cut_sep sep bs) refl

-- A token that a separator ends.
pub tokens-word :
    (sep b : ℕ) (w bs : List ℕ)
    → IsWord sep (b ∷ w)
    → tokens sep ((b ∷ w) ++ sep ∷ bs) ≡ (b ∷ w) ∷ tokens sep bs
unfolding tokens
tokens-word sep b w bs h = rw (cut-append sep (b ∷ w) (sep ∷ bs) h, cut_sep sep bs, append-nil) refl

-- A last token.
pub tokens_last : (sep b : ℕ) (w : List ℕ) → IsWord sep (b ∷ w) → tokens sep (b ∷ w) ≡ (b ∷ w) ∷ []
unfolding tokens cut
tokens_last sep b w h =
    ap (tokens sep) (sym (append-nil (b ∷ w))) ∙ rw (cut-append sep (b ∷ w) [] h, append-nil) refl

-- a text that `strtok` gives as one token
pub record IsName (sep : ℕ) (name : List ℕ) : Type 0 where
  pub nonempty : name ≢ []
  pub text : IsText name
  pub word : IsWord sep name

-- texts with a separator between them
abbrev pub joined : ℕ → List ℕ → List (List ℕ) → List ℕ
joined sep name [] = name
joined sep name (other ∷ names) = name ++ sep ∷ joined sep other names

pub joined-IsText :
    (sep : ℕ)
    → sep ≢ 0
    → (name : List ℕ) (names : List (List ℕ)) → IsName sep name
    → All (IsName sep) names
    → IsText (joined sep name names)
joined-IsText sep z name [] h hs = h.text
joined-IsText sep z name (other ∷ names) h hs =
    IsText-append name (sep ∷ joined sep other names) h.text
      (z, joined-IsText sep z other names hs.0 hs.1)

pub tokens-joined :
    (sep : ℕ) (name : List ℕ) (names : List (List ℕ))
    → IsName sep name
    → All (IsName sep) names
    → tokens sep (joined sep name names) ≡ name ∷ names
tokens-joined sep [] names h hs = absurd (h.nonempty refl)
tokens-joined sep (b ∷ w) [] h hs = tokens_last sep b w h.word
tokens-joined sep (b ∷ w) (other ∷ names) h hs =
    tokens-word sep b w (joined sep other names) h.word
    ∙ ap (λ l. (b ∷ w) ∷ l) (tokens-joined sep other names hs.0 hs.1)
