-- ===== src/Tokenizer/Rwkv.antt =====
-- engine/tokenizer_rwkv.cpp and engine/tokenizer.cpp: encode and decode over an RWKV vocabulary, the
-- legacy chat template's flag and the stop sequences.
pub mod Greedy
pub mod RoundTrip
use palm_infra.Common.{
  ℕ, zero, suc, ◌+◌, ltb, leb, ◌==◌, Bool, true, false, not, ◌&&◌, Option, none, some, List, [],
  ◌∷◌, ◌++◌, if◌then◌else◌, length, get_or, get_elem?, drop, ℤ, pos, negsuc, int_lt,
}
use palm_infra.Tokenizer.Bytes.{Bytes, bytes_eq}
use palm_infra.Tokenizer.Trie.{
  Trie, Vocabulary, child, node_at, no_token, no_vocabulary, load_lines,
}

abbrev pub is_token : ℤ → Bool
is_token t = not (int_lt t (pos 0))

-- The inner loop: the best token so far with its end, and the number of bytes passed.
unfoldable pub scan : Trie → ℕ → Bytes → ℕ → ℤ × ℕ → ℤ × ℕ
unfolding child
scan trie node [] passed best = best
scan trie node (b ∷ bs) passed best = elim (child trie node b) [
  | none ↦ best
  | some m ↦
      scan trie m bs (suc passed)
        (if is_token (node_at trie m).token then ((node_at trie m).token, suc passed) else best)
]

-- The outer loop over the text from `pos` on, with rounds to spare; `none` is running out of them.
pub encode_loop : ℕ → Trie → Bytes → List ℤ → Option (List ℤ)
unfolding scan
encode_loop rounds trie [] ids = some ids
encode_loop zero trie (b ∷ bs) ids = none
encode_loop (suc rounds) trie (b ∷ bs) ids =
    let best = scan trie 0 (b ∷ bs) 0 (no_token, 0) in
    let rest = encode_loop rounds trie (drop best.1 (b ∷ bs)) (ids ++ best.0 ∷ []) in
    if int_lt best.0 (pos 0) then some [] else rest

unfoldable pub encode_rwkv : Vocabulary → Bytes → Option (List ℤ)
unfolding encode_loop
encode_rwkv v text = encode_loop (length text) v.rwkv_trie text []

-- decode of one id.
unfoldable pub decode_id : Vocabulary → ℤ → Bytes
decode_id v (negsuc n) = []
decode_id v (pos id) = get_or v.rwkv_id_to_bytes id []

unfoldable pub decode : Vocabulary → List ℤ → Bytes
unfolding decode_id
decode v [] = []
decode v (id ∷ ids) = decode_id v id ++ decode v ids

-- The ids and flags beside the vocabulary.
pub record Markers : Type 0 where
  pub is_rwkv : Bool
  pub legacy_template : Bool
  pub bos_id : ℤ
  pub eos_id : ℤ

-- What load_rwkv_vocab sets beside the vocabulary: the format at once, the ids past the last line.
unfoldable pub load_markers : (Bytes → Option ℤ) → Markers → Option (List Bytes) → Markers
load_markers stoi m none = m
load_markers stoi m (some lines) =
    if (load_lines stoi no_vocabulary lines).1
    then record m { is_rwkv = true; bos_id = pos 0; eos_id = pos 0 }
    else record m { is_rwkv = true }

abbrev pub end_of_turn : Bytes
end_of_turn = 10 ∷ 10 ∷ []

unfoldable pub set_rwkv_legacy_chat_template : Vocabulary → Bool → Markers → Markers
unfolding bytes_eq
set_rwkv_legacy_chat_template v enabled m =
    if not m.is_rwkv
    then m
    else if enabled
        && ltb 261 (length v.rwkv_id_to_bytes)
        && bytes_eq (get_or v.rwkv_id_to_bytes 261 []) end_of_turn
    then record m { legacy_template = enabled; eos_id = pos 261 }
    else record m { legacy_template = enabled; eos_id = pos 0 }

unfoldable pub stop_sequences : Markers → List Bytes
stop_sequences m = if m.is_rwkv && m.legacy_template then end_of_turn ∷ [] else []
