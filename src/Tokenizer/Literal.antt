-- ===== src/Tokenizer/Literal.antt =====
-- engine/tokenizer_rwkv.cpp: the literals of the vocabulary file.
use palm_infra.Common.{
  ℕ, zero, suc, ◌+◌, ◌-◌, ◌*◌, ◌/◌, ◌%◌, ◌<◌, ltb, leb, ◌==◌, Bool, ◌&&◌, ◌||◌, Option, none, some,
  [], ◌∷◌, ◌++◌, ◌≡◌, refl, ap, ◌∙◌, arith, All, if◌then◌else◌,
}
use palm_infra.Tokenizer.Bytes.{Bytes}

abbrev backslash : ℕ
backslash = 92

abbrev quote : ℕ
quote = 39

abbrev double_quote : ℕ
double_quote = 34

-- The source's -1 is `none`.
unfoldable pub rwkv_hex : ℕ → Option ℕ
rwkv_hex c =
    if leb b'0' c && leb c b'9'
    then some (c - b'0')
    else if leb b'a' c && leb c b'f'
    then some (c - b'a' + 10)
    else if leb b'A' c && leb c b'F'
    then some (c - b'A' + 10)
    else none

-- The two digits after `\x`.
pub hex_pair : Bytes → Option ℕ
unfolding rwkv_hex
hex_pair (a ∷ b ∷ rest) = elim (rwkv_hex a) [
  | none ↦ none
  | some high ↦ elim (rwkv_hex b) [ none ↦ none | some low ↦ some (high * 16 + low) ]
]
hex_pair (a ∷ []) = none
hex_pair [] = none

-- The byte that an escape stands for, and how many bytes after the backslash it takes.
pub escape : Bytes → ℕ × ℕ
unfolding hex_pair
escape [] = (backslash, 0)
escape (c ∷ rest) =
    if c == b'n'
    then (10, 1)
    else if c == b't'
    then (9, 1)
    else if c == b'r'
    then (13, 1)
    else if c == b'x'
    then elim (hex_pair rest) [ some v ↦ (v, 3) | none ↦ (b'x', 1) ]
    else (c, 1)

pub literal_unit : ℕ → Bytes → ℕ × ℕ
unfolding escape
literal_unit c rest = if c == backslash then escape rest else (c, 0)

-- The loop between the quotes, with the number of bytes that are already consumed.
pub unescape : ℕ → Bytes → Bytes
unfolding literal_unit
unescape skip [] = []
unescape (suc skip) (c ∷ cs) = unescape skip cs
unescape zero (c ∷ cs) = let (v, used) = literal_unit c cs in v ∷ unescape used cs

-- The bytes up to the end, without a closing quote.
pub strip_quote : ℕ → Bytes → Bytes
strip_quote q [] = []
strip_quote q (c ∷ []) = if c == q then [] else c ∷ []
strip_quote q (c ∷ d ∷ cs) = c ∷ strip_quote q (d ∷ cs)

abbrev is_quote : ℕ → Bool
is_quote c = c == quote || c == double_quote

-- Past an opening quote, if there is one.
pub rwkv_quoted : Bytes → Bytes
unfolding unescape strip_quote
rwkv_quoted [] = []
rwkv_quoted (c ∷ []) = c ∷ []
rwkv_quoted (c ∷ d ∷ cs) = if is_quote c then unescape 0 (strip_quote c (d ∷ cs)) else c ∷ d ∷ cs

unfoldable pub rwkv_literal : Bytes → Bytes
unfolding unescape strip_quote rwkv_quoted
rwkv_literal (b ∷ c ∷ d ∷ cs) =
    if b == b'b' && is_quote c
    then unescape 0 (strip_quote c (d ∷ cs))
    else rwkv_quoted (b ∷ c ∷ d ∷ cs)
rwkv_literal (b ∷ c ∷ []) = rwkv_quoted (b ∷ c ∷ [])
rwkv_literal (b ∷ []) = rwkv_quoted (b ∷ [])
rwkv_literal [] = []

-- Python's way to write bytes between single quotes.
hex_digit : ℕ → ℕ
hex_digit n = if ltb n 10 then b'0' + n else b'a' + (n - 10)

-- Whether a byte is written by a letter after a backslash, and by which.
named_escape : ℕ → Option ℕ
named_escape b =
    if b == backslash || b == quote
    then some b
    else if b == 9
    then some b't'
    else if b == 10
    then some b'n'
    else if b == 13
    then some b'r'
    else none

python_byte : ℕ → Bytes
python_byte b = elim (named_escape b) [
  | some c ↦ backslash ∷ c ∷ []
  | none ↦
      if ltb b 32 || ltb 126 b
      then backslash ∷ b'x' ∷ hex_digit (b / 16) ∷ hex_digit (b % 16) ∷ []
      else b ∷ []
]

python_bytes : Bytes → Bytes
python_bytes [] = []
python_bytes (b ∷ bs) = python_byte b ++ python_bytes bs

unfoldable pub python_literal : Bytes → Bytes
unfolding hex_digit named_escape python_byte python_bytes
python_literal bs = b'b' ∷ quote ∷ python_bytes bs ++ quote ∷ []

rwkv_hex-hex_digit : (n : ℕ) → n < 16 → rwkv_hex (hex_digit n) ≡ some n
unfolding rwkv_hex hex_digit
rwkv_hex-hex_digit n h = ground arith

unescape-python_byte :
    (b : ℕ) (rest : Bytes) → b < 256 → unescape 0 (python_byte b ++ rest) ≡ b ∷ unescape 0 rest
unfolding unescape python_byte literal_unit escape hex_pair named_escape
unescape-python_byte b rest h =
    ground
      (arith, rwkv_hex-hex_digit (b / 16) (omega arith), rwkv_hex-hex_digit (b % 16) (omega arith))

unescape-python_bytes : (bs : Bytes) → All (λ b. b < 256) bs → unescape 0 (python_bytes bs) ≡ bs
unfolding python_bytes unescape
unescape-python_bytes [] h = refl
unescape-python_bytes (b ∷ bs) h =
    rw (unescape-python_byte b (python_bytes bs) h.0, unescape-python_bytes bs h.1)

strip_quote-snoc : (q : ℕ) (s : Bytes) → strip_quote q (s ++ q ∷ []) ≡ s
unfolding strip_quote
strip_quote-snoc q [] = ground arith
strip_quote-snoc q (c ∷ []) = ground arith
strip_quote-snoc q (c ∷ d ∷ s) = ap (λ (t : Bytes). c ∷ t) (strip_quote-snoc q (d ∷ s))

between_quotes : (s : Bytes) → rwkv_literal (b'b' ∷ quote ∷ s ++ quote ∷ []) ≡ unescape 0 s
unfolding rwkv_literal
between_quotes [] = refl
between_quotes (c ∷ s) = ap (unescape 0) (strip_quote-snoc quote (c ∷ s))

-- A Python literal of any bytes, written with escapes for the quote, the backslash and what is not
-- printable, is read back as those bytes.
pub rwkv_literal-python_literal :
    (bs : Bytes) → All (λ b. b < 256) bs → rwkv_literal (python_literal bs) ≡ bs
unfolding python_literal
rwkv_literal-python_literal bs h = between_quotes (python_bytes bs) ∙ unescape-python_bytes bs h
