-- ===== src/Tests/Tokens.antt =====
-- Concrete runs of the theorems on tokenizers.
use palm_infra.Common.{
  ℕ, ◌-◌, ◌<◌, ◌≡◌, ◌⊎◌, refl, arith, Option, none, some, List, [], ◌∷◌, length, drop, ℤ, pos,
  int_lt,
}
use palm_infra.Tokenizer.Bytes.{Bytes, find_byte, rfind_byte}
use palm_infra.Tokenizer.Literal.{rwkv_literal, python_literal, rwkv_literal-python_literal}
use palm_infra.Tokenizer.Trie.{
  Vocabulary, no_vocabulary, no_token, load_rwkv_vocab, load_lines, add_token, parse_line,
}
use palm_infra.Tokenizer.Trie.Loading.{
  word_token, id_bytes, entries, last_id, last_bytes, load_rwkv_vocab_lem,
}
use palm_infra.Tokenizer.Rwkv.{encode_rwkv, decode}
use palm_infra.Tokenizer.Rwkv.Greedy.{NoLonger, GreedyUpTo, Ends, encode_rwkv_lem}
use palm_infra.Tokenizer.Rwkv.RoundTrip.{NoReuse, decode-encode_rwkv}

-- A newline, a quote and a letter.
abbrev three_bytes : Bytes
three_bytes = 10 ∷ 39 ∷ 97 ∷ []

rwkv_literal-python_literal_example : rwkv_literal (python_literal three_bytes) ≡ three_bytes
rwkv_literal-python_literal_example = rwkv_literal-python_literal three_bytes (omega arith)

-- std::stoi on one digit.
one_digit : Bytes → Option ℤ
one_digit [] = none
one_digit (c ∷ cs) = some (pos (c - b'0'))

-- The lines `1 'a' 1` and `2 'ab' 2`.
abbrev two_lines : List Bytes
two_lines =
    (b'1' ∷ 32 ∷ 39 ∷ b'a' ∷ 39 ∷ 32 ∷ b'1' ∷ [])
    ∷ (b'2' ∷ 32 ∷ 39 ∷ b'a' ∷ b'b' ∷ 39 ∷ 32 ∷ b'2' ∷ [])
    ∷ []

abbrev loaded : Vocabulary
loaded = (load_rwkv_vocab one_digit no_vocabulary (some two_lines)).0

load_rwkv_vocab_lem_example :
    ((w : Bytes) → word_token loaded w ≡ last_id no_token (entries one_digit two_lines) w)
    × ((id : ℕ) → id_bytes loaded id ≡ last_bytes [] (entries one_digit two_lines) id)
load_rwkv_vocab_lem_example = load_rwkv_vocab_lem one_digit no_vocabulary two_lines

two_entries : entries one_digit two_lines ≡ (1, b'a' ∷ []) ∷ (2, b'a' ∷ b'b' ∷ []) ∷ []
unfolding entries parse_line find_byte rfind_byte rwkv_literal one_digit
two_entries = refl

two_lines-NoReuse : NoReuse (entries one_digit two_lines)
two_lines-NoReuse = rw two_entries (((λ e. absurd (omega arith), tt)), (tt, tt))

-- `aba` is the word `ab` and the word `a`.
abbrev sample_text : Bytes
sample_text = b'a' ∷ b'b' ∷ b'a' ∷ []

encode_rwkv_lem_example :
    (ids : List ℤ) × (i : ℕ) × (result : List ℤ) × (encode_rwkv loaded sample_text ≡ some result)
    × GreedyUpTo (word_token loaded) sample_text ids i
    × Ends (word_token loaded) sample_text [] ids i result
encode_rwkv_lem_example = encode_rwkv_lem loaded sample_text

decode-encode_rwkv_example :
    (ids : List ℤ) × (encode_rwkv loaded sample_text ≡ some ids)
    × ((decode loaded ids ≡ sample_text)
        ⊎ ((i : ℕ) × (ids ≡ [])
            × (i < length sample_text)
            × NoLonger (word_token loaded) (drop i sample_text) 0))
decode-encode_rwkv_example =
    decode-encode_rwkv one_digit no_vocabulary two_lines sample_text two_lines-NoReuse

-- The model run: the longest word first.
encoded_sample : encode_rwkv loaded sample_text ≡ some (pos 2 ∷ pos 1 ∷ [])
unfolding encode_rwkv load_rwkv_vocab load_lines parse_line find_byte rfind_byte rwkv_literal
    add_token one_digit int_lt
encoded_sample = refl
