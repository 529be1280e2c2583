-- ===== src/Tokenizer/Rwkv/RoundTrip.antt =====
-- engine/tokenizer_rwkv.cpp and engine/tokenizer.cpp: the text decoded from encoded ids.
use palm_infra.Common.{
  ℕ, ◌<◌, ◌==◌, Bool, true, false, Option, some, List, [], ◌∷◌, ◌≡◌, ◌⊎◌, refl, sym, ◌∙◌, ap, inl,
  inr, arith, if◌then◌else◌, length, take, drop, take-take_rest, take-length, All, ℤ, pos, negsuc,
  int_lt, Bool-cases,
}
use palm_infra.Tokenizer.Bytes.{Bytes, bytes_eq, bytes_eq-true}
use palm_infra.Tokenizer.Trie.{Vocabulary, no_vocabulary, add_token, load_rwkv_vocab}
use palm_infra.Tokenizer.Trie.Values.{IsTree}
use palm_infra.Tokenizer.Trie.Loading.{
  word_token, id_bytes, entries, add_all, word_token-add_token, id_bytes-add_token,
  add_token-IsTree, load_lines-add_all, no_vocabulary-IsTree, no_word,
}
use palm_infra.Tokenizer.Rwkv.{encode_rwkv, decode_id, decode}
use palm_infra.Tokenizer.Rwkv.Greedy.{NoLonger, IsLongest, GreedyUpTo, Ends, encode_rwkv_lem}

-- The id of a word has that word's bytes.
abbrev pub IsConsistent : Vocabulary → Type 0
IsConsistent v = (w : Bytes) (id : ℕ) → word_token v w ≡ pos id → id_bytes v id ≡ w

-- No id stands on two entries with different bytes.
abbrev pub NoReuse : List (ℕ × Bytes) → Type 0
NoReuse [] = Unit
NoReuse ((id, bs) ∷ es) = All (λ e. e.0 ≡ id → e.1 ≡ bs) es × NoReuse es

-- What the vocabulary says of an entry's id is that entry's word.
abbrev Agrees : Vocabulary → ℕ × Bytes → Type 0
Agrees v e = (w : Bytes) → word_token v w ≡ pos e.0 → e.1 ≡ w

module _ (v : Vocabulary) (id : ℕ) (bs : Bytes) (t : IsTree v.rwkv_trie) where
  add_token-IsConsistent : IsConsistent v → Agrees v (id, bs) → IsConsistent (add_token v id bs)
  add_token-IsConsistent c a w j e =
      by_word (bytes_eq bs w) refl (sym (word_token-add_token v id bs w t) ∙ e)
    where
      by_word :
          (b : Bool)
          → bytes_eq bs w ≡ b
          → (if b then pos id else word_token v w) ≡ pos j
          → id_bytes (add_token v id bs) j ≡ w
      by_word true p q =
          let same : id ≡ j = ground arith in
          ground (arith, id_bytes-add_token v id j bs, bytes_eq-true bs w)
      by_word false p q = elim (Bool-cases (id == j)) [
        | inl s ↦
            let same : j ≡ id = ground arith in
            rw (id_bytes-add_token v id j bs, s) (a w (q ∙ ap pos same))
        | inr s ↦ rw (id_bytes-add_token v id j bs, s) (c w j q)
      ]

  add_token-Agrees :
      (es : List (ℕ × Bytes))
      → All (Agrees v) es
      → All (λ e. e.0 ≡ id → e.1 ≡ bs) es
      → All (Agrees (add_token v id bs)) es
  add_token-Agrees [] a n = tt
  add_token-Agrees (e ∷ es) a n = (
    λ w q. by_word w (bytes_eq bs w) refl (sym (word_token-add_token v id bs w t) ∙ q),
    add_token-Agrees es a.1 n.1,
  )
    where
      by_word :
          (w : Bytes) (b : Bool)
          → bytes_eq bs w ≡ b
          → (if b then pos id else word_token v w) ≡ pos e.0
          → e.1 ≡ w
      by_word w true p q = let same : e.0 ≡ id = ground arith in n.0 same ∙ bytes_eq-true bs w p
      by_word w false p q = a.0 w q

add_all-IsConsistent :
    (v : Vocabulary) (es : List (ℕ × Bytes))
    → IsTree v.rwkv_trie
    → IsConsistent v
    → All (Agrees v) es
    → NoReuse es
    → IsConsistent (add_all v es)
add_all-IsConsistent v [] t c a n = c
add_all-IsConsistent v ((id, bs) ∷ es) t c a n =
    add_all-IsConsistent (add_token v id bs) es (add_token-IsTree v id bs t)
      (add_token-IsConsistent v id bs t c a.0) (add_token-Agrees v id bs t es a.1 n.0) n.1

empty-Agrees : (es : List (ℕ × Bytes)) → All (Agrees no_vocabulary) es
empty-Agrees [] = tt
empty-Agrees (e ∷ es) = (λ w q. let e = sym (no_word w) ∙ q in absurd (cc), empty-Agrees es)

pub load_rwkv_vocab-IsConsistent :
    (stoi : Bytes → Option ℤ) (before : Vocabulary) (lines : List Bytes)
    → NoReuse (entries stoi lines)
    → IsConsistent (load_rwkv_vocab stoi before (some lines)).0
unfolding load_rwkv_vocab
load_rwkv_vocab-IsConsistent stoi before lines n =
    rw (load_lines-add_all stoi no_vocabulary lines) (
      add_all-IsConsistent no_vocabulary (entries stoi lines) no_vocabulary-IsTree
        (λ w id q. let e = sym (no_word w) ∙ q in absurd (cc)) (empty-Agrees (entries stoi lines))
        n)

decode_word :
    (v : Vocabulary) (text : Bytes) (l : ℕ) (id : ℤ)
    → IsConsistent v
    → IsLongest (word_token v) text l id
    → decode_id v id ≡ take l text
unfolding decode_id int_lt
decode_word v text l (pos id) c s = c (take l text) id s.word
decode_word v text l (negsuc n) c s = let p = s.is_word in absurd (cc)

decode_greedy :
    (v : Vocabulary) (text : Bytes) (ids : List ℤ) (i : ℕ)
    → IsConsistent v
    → GreedyUpTo (word_token v) text ids i
    → decode v ids ≡ take i text
unfolding decode
decode_greedy v text [] i c g = rw g
decode_greedy v text (id ∷ ids) i c (l, j, s, g, e) =
    rw (e, decode_word v text l id c s, decode_greedy v (drop l text) ids j c g)
      (take-take_rest l j text)

-- With a vocabulary loaded from a file in which no id stands on two entries with different bytes,
-- encoding a text ends with ids that decode to exactly that text, or, if at some place no word of the
-- vocabulary fits, with no ids.
pub decode-encode_rwkv :
    (stoi : Bytes → Option ℤ) (before : Vocabulary) (lines : List Bytes) (text : Bytes)
    → NoReuse (entries stoi lines)
    → let v = (load_rwkv_vocab stoi before (some lines)).0 in
      (ids : List ℤ) × (encode_rwkv v text ≡ some ids)
      × ((decode v ids ≡ text)
          ⊎ ((i : ℕ) × (ids ≡ []) × (i < length text) × NoLonger (word_token v) (drop i text) 0))
decode-encode_rwkv stoi before lines text n =
    let v = (load_rwkv_vocab stoi before (some lines)).0 in
    let (ids, i, result, e, g, ends) = encode_rwkv_lem v text in
    (result, e, by_end v ids i result (load_rwkv_vocab-IsConsistent stoi before lines n) g ends)
  where
    by_end :
        (v : Vocabulary) (ids : List ℤ) (i : ℕ) (result : List ℤ)
        → IsConsistent v
        → GreedyUpTo (word_token v) text ids i
        → Ends (word_token v) text [] ids i result
        → (decode v result ≡ text)
          ⊎ ((i : ℕ) × (result ≡ []) × (i < length text) × NoLonger (word_token v) (drop i text) 0)
    by_end v ids i result c g (inl (p, q)) =
        inl (rw (q, decode_greedy v text ids i c g, p) (take-length text))
    by_end v ids i result c g (inr (p, q, r)) = inr (i, r, p, q)
