-- ===== src/Tokenizer/Trie/Loading.antt =====
-- engine/tokenizer_rwkv.cpp: what a loaded vocabulary says of each word and of each id.
use palm_infra.Common.{
  ℕ, zero, suc, ◌+◌, ◌-◌, ◌<◌, leb, ◌==◌, Option, some, List, [], ◌∷◌, ◌++◌, ◌≡◌, ◌⊎◌, refl, ◌∙◌,
  ap, inl, inr, arith, if◌then◌else◌, length, length-append, length-replicate, get_or, get_or-set,
  get_or-append_default, replicate, ℤ, pos, Bool-cases,
}
use palm_infra.Tokenizer.Bytes.{Bytes, bytes_eq}
use palm_infra.Tokenizer.Trie.{
  Vocabulary, no_vocabulary, no_token, child, find_next, store_bytes, add_token, Line, parse_line,
  load_lines, load_rwkv_vocab,
}
use palm_infra.Tokenizer.Trie.Values.{token_from, IsTree}
use palm_infra.Tokenizer.Trie.Insertion.{insert_word-IsTree, token_from-insert_word}

-- The id of a word and the bytes of an id in a loaded vocabulary.
abbrev pub word_token : Vocabulary → Bytes → ℤ
word_token v w = token_from v.rwkv_trie 0 w

abbrev pub id_bytes : Vocabulary → ℕ → Bytes
id_bytes v id = get_or v.rwkv_id_to_bytes id []

-- The last entry for a word, and the last one for an id, in a list of entries.
abbrev pub last_id : ℤ → List (ℕ × Bytes) → Bytes → ℤ
last_id found [] w = found
last_id found ((id, bs) ∷ es) w = last_id (if bytes_eq bs w then pos id else found) es w

abbrev pub last_bytes : Bytes → List (ℕ × Bytes) → ℕ → Bytes
last_bytes found [] id = found
last_bytes found ((j, bs) ∷ es) id = last_bytes (if j == id then bs else found) es id

module _ (stoi : Bytes → Option ℤ) where
  -- The entries of the lines up to a malformed one.
  unfoldable pub entries : List Bytes → List (ℕ × Bytes)
  entries [] = []
  entries (line ∷ lines) = elim (parse_line stoi line) [
    | Line.skipped ↦ entries lines
    | Line.malformed ↦ []
    | Line.entry id bytes ↦ (id, bytes) ∷ entries lines
  ]

get_or-store_bytes :
    (table : List Bytes) (id j : ℕ) (bytes : Bytes)
    → get_or (store_bytes table id bytes) j [] ≡ (if id == j then bytes else get_or table j [])
unfolding store_bytes
get_or-store_bytes table id j bytes = elim (Bool-cases (leb (length table) id)) [
  | inl p ↦
      let more = replicate (id + 1 - length table) [] in
      let fits : id < length (table ++ more) = ground (
        arith,
        length-append table more,
        length-replicate {A = Bytes} (id + 1 - length table) [],
      ) in
      rw (
        p,
        get_or-set (table ++ more) id j bytes [] fits,
        get_or-append_default table (id + 1 - length table) j [],
      )
  | inr p ↦ rw (p, get_or-set table id j bytes [] (ground arith))
]

pub word_token-add_token :
    (v : Vocabulary) (id : ℕ) (bytes w : Bytes)
    → IsTree v.rwkv_trie
    → word_token (add_token v id bytes) w ≡ (if bytes_eq bytes w then pos id else word_token v w)
unfolding add_token
word_token-add_token v id bytes w t = token_from-insert_word v.rwkv_trie bytes w (pos id) t

pub add_token-IsTree :
    (v : Vocabulary) (id : ℕ) (bytes : Bytes)
    → IsTree v.rwkv_trie
    → IsTree (add_token v id bytes).rwkv_trie
unfolding add_token
add_token-IsTree v id bytes t = insert_word-IsTree v.rwkv_trie bytes (pos id) t

pub id_bytes-add_token :
    (v : Vocabulary) (id j : ℕ) (bytes : Bytes)
    → id_bytes (add_token v id bytes) j ≡ (if id == j then bytes else id_bytes v j)
unfolding add_token
id_bytes-add_token v id j bytes = get_or-store_bytes v.rwkv_id_to_bytes id j bytes

abbrev pub add_all : Vocabulary → List (ℕ × Bytes) → Vocabulary
add_all v [] = v
add_all v ((id, bs) ∷ es) = add_all (add_token v id bs) es

Line-cases :
    (l : Line)
    → (l ≡ Line.skipped)
      ⊎ (l ≡ Line.malformed)
      ⊎ ((id : ℕ) × (bytes : Bytes) × (l ≡ Line.entry id bytes))
Line-cases Line.skipped = inl refl
Line-cases Line.malformed = inr (inl refl)
Line-cases (Line.entry id bytes) = inr (inr (id, bytes, refl))

pub load_lines-add_all :
    (stoi : Bytes → Option ℤ) (v : Vocabulary) (lines : List Bytes)
    → (load_lines stoi v lines).0 ≡ add_all v (entries stoi lines)
unfolding load_lines entries
load_lines-add_all stoi v [] = refl
load_lines-add_all stoi v (line ∷ lines) = elim (Line-cases (parse_line stoi line)) [
  | inl e ↦ rw (e, load_lines, entries) (load_lines-add_all stoi v lines)
  | inr (inl e) ↦ rw (e, load_lines, entries)
  | inr (inr (id, bytes, e)) ↦
      rw (e, load_lines, entries) (load_lines-add_all stoi (add_token v id bytes) lines)
]

add_all-IsTree :
    (v : Vocabulary) (es : List (ℕ × Bytes)) → IsTree v.rwkv_trie → IsTree (add_all v es).rwkv_trie
add_all-IsTree v [] t = t
add_all-IsTree v ((id, bs) ∷ es) t =
    add_all-IsTree (add_token v id bs) es (add_token-IsTree v id bs t)

word_token-add_all :
    (v : Vocabulary) (es : List (ℕ × Bytes)) (w : Bytes)
    → IsTree v.rwkv_trie
    → word_token (add_all v es) w ≡ last_id (word_token v w) es w
word_token-add_all v [] w t = refl
word_token-add_all v ((id, bs) ∷ es) w t =
    word_token-add_all (add_token v id bs) es w (add_token-IsTree v id bs t)
    ∙ ap (λ (f : ℤ). last_id f es w) (word_token-add_token v id bs w t)

id_bytes-add_all :
    (v : Vocabulary) (es : List (ℕ × Bytes)) (id : ℕ)
    → id_bytes (add_all v es) id ≡ last_bytes (id_bytes v id) es id
id_bytes-add_all v [] id = refl
id_bytes-add_all v ((j, bs) ∷ es) id =
    id_bytes-add_all (add_token v j bs) es id
    ∙ ap (λ (f : Bytes). last_bytes f es id) (id_bytes-add_token v j id bs)

pub no_vocabulary-IsTree : IsTree no_vocabulary.rwkv_trie
unfolding child find_next
no_vocabulary-IsTree = record {
  label = λ n. [];
  root = refl;
  some_node = omega arith;
  edge = λ n b m e. empty_edge n b m e;
}
  where
    empty_edge :
        (n b m : ℕ)
        → child no_vocabulary.rwkv_trie n b ≡ some m
        → (m < 1) × (◌≡◌ {A = Bytes} [] (b ∷ []))
    empty_edge zero b m e = cc
    empty_edge (suc n) b m e = cc

pub no_word : (w : Bytes) → word_token no_vocabulary w ≡ no_token
unfolding child find_next
no_word [] = refl
no_word (b ∷ w) = refl

-- Loading a vocabulary file of any lines, with any std::stoi and over any vocabulary before, gives
-- each word the id of the last entry for it, and -1 without one, and each id the bytes of its last
-- entry, and none without one.
pub load_rwkv_vocab_lem :
    (stoi : Bytes → Option ℤ) (before : Vocabulary) (lines : List Bytes)
    → let v = (load_rwkv_vocab stoi before (some lines)).0 in
      ((w : Bytes) → word_token v w ≡ last_id no_token (entries stoi lines) w)
      × ((id : ℕ) → id_bytes v id ≡ last_bytes [] (entries stoi lines) id)
unfolding load_rwkv_vocab
load_rwkv_vocab_lem stoi before lines =
    let es = entries stoi lines in
    rw (load_lines-add_all stoi no_vocabulary lines) (
      λ w.
          word_token-add_all no_vocabulary es w no_vocabulary-IsTree
          ∙ ap (λ (f : ℤ). last_id f es w) (no_word w),
      λ id. id_bytes-add_all no_vocabulary es id,
    )
