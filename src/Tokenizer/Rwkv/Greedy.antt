-- ===== src/Tokenizer/Rwkv/Greedy.antt =====
-- engine/tokenizer_rwkv.cpp: encoding as the repeated choice of the longest word.
use palm_infra.Common.{
  ℕ, zero, suc, ◌+◌, ◌≤◌, ◌<◌, Bool, true, false, not, Option, none, some, List, [], ◌∷◌, ◌++◌, ◌≡◌,
  ◌⊎◌, refl, sym, subst, ◌∙◌, inl, inr, arith, if◌then◌else◌, length, length-drop, take, drop,
  drop-drop, ℤ, pos, int_lt, Option-cases,
}
use mathlib.Core.List.{append_assoc, append-nil}
use palm_infra.Tokenizer.Bytes.{Bytes}
use palm_infra.Tokenizer.Trie.{Trie, Vocabulary, child, node_at, no_token}
use palm_infra.Tokenizer.Trie.Values.{token_from}
use palm_infra.Tokenizer.Trie.Loading.{word_token}
use palm_infra.Tokenizer.Rwkv.{is_token, scan, encode_loop, encode_rwkv}

-- No word of more than so many bytes stands at the front of the text.
abbrev pub NoLonger : (Bytes → ℤ) → Bytes → ℕ → Type 0
NoLonger words text n = (l : ℕ) → n < l → l ≤ length text → is_token (words (take l text)) ≡ false

-- The longest word at the front of the text has so many bytes and this id.
pub record IsLongest (words : Bytes → ℤ) (text : Bytes) (l : ℕ) (id : ℤ) : Type 0 where
  pub some_bytes : 0 < l
  pub inside : l ≤ length text
  pub word : words (take l text) ≡ id
  pub is_word : is_token id ≡ true
  pub longest : NoLonger words text l

-- What scanning adds to the best token so far.
abbrev Scanned : (Bytes → ℤ) → Bytes → ℕ → ℤ × ℕ → ℤ × ℕ → Type 0
Scanned words text passed best r =
    (r ≡ best) × NoLonger words text 0 ⊎ ((l : ℕ) × IsLongest words text l r.0 × (r.1 ≡ passed + l))

-- One byte more in front of what was scanned.
Scanned-cons :
    (words : Bytes → ℤ) (b : ℕ) (bs : Bytes) (passed : ℕ) (best : ℤ × ℕ) (r : ℤ × ℕ)
    → Scanned
        (λ w. words (b ∷ w))
        bs
        (suc passed)
        (if is_token (words (b ∷ [])) then (words (b ∷ []), suc passed) else best)
        r
    → Scanned words (b ∷ bs) passed best r
Scanned-cons words b bs passed best r (inr (l, s, e)) = inr (
  suc l,
  record {
    some_bytes = omega arith;
    inside = omega (arith, s.inside);
    word = s.word;
    is_word = s.is_word;
    longest = longer;
  },
  omega arith,
)
  where
    longer : NoLonger words (b ∷ bs) (suc l)
    longer zero p q = absurd (omega arith)
    longer (suc k) p q = s.longest k (omega arith) (omega arith)
Scanned-cons words b bs passed best r (inl (e, none_longer)) =
    by_word (is_token (words (b ∷ []))) refl e
  where
    longer : NoLonger words (b ∷ bs) 1
    longer zero p q = absurd (omega arith)
    longer (suc k) p q = none_longer k (omega arith) (omega arith)

    any_length : is_token (words (b ∷ [])) ≡ false → NoLonger words (b ∷ bs) 0
    any_length t zero p q = absurd (omega arith)
    any_length t (suc zero) p q = t
    any_length t (suc (suc k)) p q = longer (suc (suc k)) (omega arith) q

    by_word :
        (s : Bool)
        → is_token (words (b ∷ [])) ≡ s
        → r ≡ (if s then (words (b ∷ []), suc passed) else best)
        → Scanned words (b ∷ bs) passed best r
    by_word true t d =
        let first : words (b ∷ []) ≡ r.0 = cc in
        inr (
          1,
          record {
            some_bytes = omega arith;
            inside = omega arith;
            word = first;
            is_word = rw (← first) t;
            longest = longer;
          },
          ground arith,
        )
    by_word false t d = inl (d, any_length t)

scan_lem :
    (t : Trie) (n : ℕ) (bs : Bytes) (passed : ℕ) (best : ℤ × ℕ)
    → Scanned (token_from t n) bs passed best (scan t n bs passed best)
unfolding scan int_lt
scan_lem t n [] passed best = inl (refl, λ l p q. absurd (omega arith))
scan_lem t n (b ∷ bs) passed best = elim (Option-cases (child t n b)) [
  | inl e ↦ rw (e, scan) (inl (refl, λ l p q. no_word e l p))
  | inr (m, e) ↦
      let best' =
        if is_token (node_at t m).token then ((node_at t m).token, suc passed) else best in
      let below : token_from t m ≡ (λ (w : Bytes). token_from t n (b ∷ w)) =
        λ i w. elim (sym e i) [ none ↦ no_token | some k ↦ token_from t k w ] in
      let ih = scan_lem t m bs (suc passed) best' in
      rw (e, scan)
        (Scanned-cons (token_from t n) b bs passed best (scan t m bs (suc passed) best') (
          subst
            (λ (f : Bytes → ℤ).
              Scanned f bs (suc passed) (if is_token (f []) then (f [], suc passed) else best)
                (scan t m bs (suc passed) best'))
            below ih))
]
  where
    no_word :
        child t n b ≡ none → (l : ℕ) → 0 < l → is_token (token_from t n (take l (b ∷ bs))) ≡ false
    no_word e zero p = absurd (omega arith)
    no_word e (suc l) p = rw (e, token_from)

-- The ids are those of the longest words, one after the other, over the first so many bytes.
abbrev pub GreedyUpTo : (Bytes → ℤ) → Bytes → List ℤ → ℕ → Type 0
GreedyUpTo words text [] i = i ≡ 0
GreedyUpTo words text (id ∷ ids) i =
    (l : ℕ) × (j : ℕ) × IsLongest words text l id
    × GreedyUpTo words (drop l text) ids j
    × (i ≡ l + j)

-- How encoding ends: at the end of the text, or where no word fits, with no ids at all.
abbrev pub Ends : (Bytes → ℤ) → Bytes → List ℤ → List ℤ → ℕ → List ℤ → Type 0
Ends words text before ids i result =
    (i ≡ length text) × (result ≡ before ++ ids)
    ⊎ (i < length text) × NoLonger words (drop i text) 0 × (result ≡ [])

abbrev Encoded : (Bytes → ℤ) → Bytes → List ℤ → Option (List ℤ) → Type 0
Encoded words text before r =
    (ids : List ℤ) × (i : ℕ) × (result : List ℤ) × (r ≡ some result)
    × GreedyUpTo words text ids i
    × Ends words text before ids i result

module _ (words : Bytes → ℤ) (text : Bytes) (before : List ℤ) (rest : Option (List ℤ)) where
  -- A word was found, and the rest is encoded.
  after_word :
      (id : ℤ) (l : ℕ)
      → IsLongest words text l id
      → Encoded words (drop l text) (before ++ id ∷ []) rest
      → Encoded words text before rest
  after_word id l s (ids, i, result, e, g, ends) =
      (id ∷ ids, l + i, result, e, (l, i, s, g, refl), both_ends ends)
    where
      both_ends :
          Ends words (drop l text) (before ++ id ∷ []) ids i result
          → Ends words text before (id ∷ ids) (l + i) result
      both_ends (inl (a, b)) =
          inl (omega (arith, length-drop l text, s.inside), b ∙ append_assoc before (id ∷ []) ids)
      both_ends (inr (a, b, c)) =
          inr (omega (arith, length-drop l text, s.inside), rw (← drop-drop l i text) b, c)

  after_scan :
      (id : ℤ) (used : ℕ)
      → Scanned words text 0 (no_token, 0) (id, used)
      → 0 < length text
      → (0 < used → Encoded words (drop used text) (before ++ id ∷ []) rest)
      → Encoded words text before (if int_lt id (pos 0) then some [] else rest)
  unfolding int_lt
  after_scan id used (inl (e, none_fits)) h ih =
      let negative : no_token ≡ id = cc in
      rw (← negative) ([], 0, [], refl, refl, inr (h, none_fits, refl))
  after_scan id used (inr (l, s, e)) h ih =
      let same : l ≡ used = omega arith in
      let s' = subst (λ (k : ℕ). IsLongest words text k id) same s in
      let found : int_lt id (pos 0) ≡ false = by_not (int_lt id (pos 0)) s.is_word in
      rw found (after_word id used s' (ih s'.some_bytes))
    where
      by_not : (x : Bool) → not x ≡ true → x ≡ false
      by_not true p = cc
      by_not false p = refl

encode_loop_lem :
    (rounds : ℕ) (t : Trie) (text : Bytes) (before : List ℤ)
    → length text ≤ rounds
    → Encoded (token_from t 0) text before (encode_loop rounds t text before)
unfolding encode_loop
encode_loop_lem rounds t [] before h =
    ([], 0, before, refl, refl, inl (refl, sym (append-nil before)))
encode_loop_lem zero t (b ∷ bs) before h = absurd (omega arith)
encode_loop_lem (suc rounds) t (b ∷ bs) before h =
    let r = scan t 0 (b ∷ bs) 0 (no_token, 0) in
    after_scan (token_from t 0) (b ∷ bs) before
      (encode_loop rounds t (drop r.1 (b ∷ bs)) (before ++ r.0 ∷ [])) r.0 r.1
      (scan_lem t 0 (b ∷ bs) 0 (no_token, 0)) (omega arith)
      (λ p.
        encode_loop_lem rounds t (drop r.1 (b ∷ bs)) (before ++ r.0 ∷ [])
          (omega (arith, length-drop r.1 (b ∷ bs))))

-- Over any vocabulary and text encode_rwkv ends, within as many rounds as there are bytes. Its ids are
-- those of the longest words one after the other, and they cover the whole text; or it returns no
-- ids, and at the place that the longest words reach no word fits.
pub encode_rwkv_lem :
    (v : Vocabulary) (text : Bytes)
    → (ids : List ℤ) × (i : ℕ) × (result : List ℤ) × (encode_rwkv v text ≡ some result)
      × GreedyUpTo (word_token v) text ids i
      × Ends (word_token v) text [] ids i result
unfolding encode_rwkv
encode_rwkv_lem v text = encode_loop_lem (length text) v.rwkv_trie text [] (omega arith)
