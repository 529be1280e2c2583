-- ===== src/Tokenizer/Trie/Insertion.antt =====
-- engine/tokenizer_rwkv.cpp: a word inserted in the trie of a vocabulary.
use palm_infra.Common.{
  ℕ, ◌<◌, ◌==◌, false, Option, none, some, [], ◌∷◌, ◌++◌, ◌≡◌, ◌≢◌, refl, sym, subst, ◌∙◌, ap, inl,
  inr, arith, if◌then◌else◌, length, length-set, ℤ, Bool-cases, Option-cases,
}
use mathlib.Core.List.{append_assoc, append-nil}
use palm_infra.Tokenizer.Bytes.{Bytes, bytes_eq, bytes_eq_refl, bytes_eq-true}
use palm_infra.Tokenizer.Trie.{Trie, no_token, node_at, child, add_edge, insert_bytes, set_token}
use palm_infra.Tokenizer.Trie.Values.{
  token_from, walk, IsTree, child-add_edge, length-add_edge, token_from-add_edge, add_edge-IsTree,
  child-set_token, node_at-set_token,
}

-- What the loop over the bytes of a word leaves.
record Inserted (t : Trie) (n : ℕ) (bs : Bytes) (r : Trie × ℕ) : Type 0 where
  tree : IsTree r.0
  last : r.1 < length r.0
  tokens : (w : Bytes) → token_from r.0 0 w ≡ token_from t 0 w
  grows : (k c m : ℕ) → child t k c ≡ some m → child r.0 k c ≡ some m
  path : walk r.0 n bs ≡ some r.1

insert_bytes-Inserted :
    (t : Trie) (n : ℕ) (bs : Bytes)
    → IsTree t
    → n < length t
    → Inserted t n bs (insert_bytes t n bs)
unfolding insert_bytes
insert_bytes-Inserted t n [] v h = record {
  tree = v;
  last = h;
  tokens = λ w. refl;
  grows = λ k c m e. e;
  path = refl;
}
insert_bytes-Inserted t n (b ∷ bs) v h = elim (Option-cases (child t n b)) [
  | inr (m, e) ↦
      let ih = insert_bytes-Inserted t m bs v (v.edge n b m e).0 in
      rw (e, insert_bytes)
        record {
          tree = ih.tree;
          last = ih.last;
          tokens = ih.tokens;
          grows = ih.grows;
          path = rw (ih.grows n b m e, walk) ih.path;
        }
  | inl e ↦
      let t' = add_edge t n b in
      let ih =
        insert_bytes-Inserted t' (length t) bs (add_edge-IsTree t v n b h e)
          (omega (arith, length-add_edge t n b)) in
      let new : child t' n b ≡ some (length t) = ground (arith, child-add_edge t n b n b h) in
      rw (e, insert_bytes)
        record {
          tree = ih.tree;
          last = ih.last;
          tokens = λ w. ih.tokens w ∙ token_from-add_edge t v n b h e 0 w v.some_node;
          grows = λ k c m d. ih.grows k c m (ground (arith, child-add_edge t n b k c h));
          path = rw (ih.grows n b (length t) new, walk) ih.path;
        }
]

-- The word that leads to a node.
label-walk :
    (t : Trie) (v : IsTree t) (n m : ℕ) (w : Bytes)
    → walk t n w ≡ some m
    → v.label m ≡ v.label n ++ w
label-walk t v n m [] e = let same : n ≡ m = cc in rw same (sym (append-nil (v.label m)))
label-walk t v n m (b ∷ w) e = elim (Option-cases (child t n b)) [
  | inl d ↦ let e' : none ≡ some m = (rw (d, walk) at e) in absurd (cc)
  | inr (k, d) ↦
      let e' : walk t k w ≡ some m = (rw (d, walk) at e) in
      label-walk t v k m w e'
      ∙ ap (λ (s : Bytes). s ++ w) (v.edge n b k d).1
      ∙ append_assoc (v.label n) (b ∷ []) w
]

-- The same trie with a token set, by the node where a word ends.
token_at : Trie → Option ℕ → ℤ
token_at t none = no_token
token_at t (some n) = (node_at t n).token

token_from-walk : (t : Trie) (n : ℕ) (w : Bytes) → token_from t n w ≡ token_at t (walk t n w)
unfolding token_at
token_from-walk t n [] = refl
token_from-walk t n (b ∷ w) = elim (Option-cases (child t n b)) [
  | inl d ↦ rw (d, walk, token_from)
  | inr (k, d) ↦ rw (d, walk, token_from) (token_from-walk t k w)
]

walk-set_token :
    (t : Trie) (e : ℕ) (id : ℤ) (n : ℕ) (w : Bytes)
    → e < length t
    → walk (set_token t e id) n w ≡ walk t n w
walk-set_token t e id n [] h = refl
walk-set_token t e id n (b ∷ w) h = elim (Option-cases (child t n b)) [
  | inl d ↦ rw (child-set_token t e n b id h, d, walk)
  | inr (k, d) ↦ rw (child-set_token t e n b id h, d, walk) (walk-set_token t e id k w h)
]

length-set_token : (t : Trie) (e : ℕ) (id : ℤ) → length (set_token t e id) ≡ length t
unfolding set_token
length-set_token t e id = length-set t e (record (node_at t e) { token = id })

set_token-IsTree : (t : Trie) (e : ℕ) (id : ℤ) → e < length t → IsTree t → IsTree (set_token t e id)
set_token-IsTree t e id h v = record {
  label = v.label;
  root = v.root;
  some_node = rw (length-set_token t e id) v.some_node;
  edge = λ n b m d.
      rw (length-set_token t e id) (v.edge n b m (sym (child-set_token t e n b id h) ∙ d));
}

token_at-set_same :
    (t : Trie) (e : ℕ) (id : ℤ) → e < length t → token_at (set_token t e id) (some e) ≡ id
unfolding token_at
token_at-set_same t e id h = ground (arith, node_at-set_token t e e id)

token_at-set_other :
    (t : Trie) (e : ℕ) (id : ℤ) (o : Option ℕ)
    → e < length t
    → o ≢ some e
    → token_at (set_token t e id) o ≡ token_at t o
unfolding token_at
token_at-set_other t e id none h n = refl
token_at-set_other t e id (some m) h n = elim (Bool-cases (e == m)) [
  | inl p ↦ absurd (n (ap some (ground arith)))
  | inr p ↦ ground (arith, node_at-set_token t e m id)
]

other_word :
    (t : Trie) (e : ℕ) (bs w : Bytes)
    → IsTree t
    → bytes_eq bs w ≡ false
    → walk t 0 bs ≡ some e
    → walk t 0 w ≡ some e
    → ⊥
other_word t e bs w v p d d' =
    let a = label-walk t v 0 e bs d in
    let b = label-walk t v 0 e w d' in
    let whole : bs ≡ w =
      ap (λ (s : Bytes). s ++ bs) (sym v.root) ∙ sym a ∙ b ∙ ap (λ (s : Bytes). s ++ w) v.root in
    let self = bytes_eq_refl bs in
    let not_self : bytes_eq bs bs ≡ false =
      subst (λ (x : Bytes). bytes_eq bs x ≡ false) (sym whole) p in
    absurd (cc)

-- The whole insertion: the trie afterwards, and the new token of the word.
abbrev pub insert_word : Trie → Bytes → ℤ → Trie
insert_word t bs id = let r = insert_bytes t 0 bs in set_token r.0 r.1 id

pub insert_word-IsTree : (t : Trie) (bs : Bytes) (id : ℤ) → IsTree t → IsTree (insert_word t bs id)
insert_word-IsTree t bs id v =
    let r = insert_bytes t 0 bs in
    let i = insert_bytes-Inserted t 0 bs v v.some_node in set_token-IsTree r.0 r.1 id i.last i.tree

pub token_from-insert_word :
    (t : Trie) (bs w : Bytes) (id : ℤ)
    → IsTree t
    → token_from (insert_word t bs id) 0 w ≡ (if bytes_eq bs w then id else token_from t 0 w)
token_from-insert_word t bs w id v =
    let r = insert_bytes t 0 bs in
    let i = insert_bytes-Inserted t 0 bs v v.some_node in
    let reached =
      token_from-walk (insert_word t bs id) 0 w
      ∙ ap (token_at (insert_word t bs id)) (walk-set_token r.0 r.1 id 0 w i.last) in
    let before = sym (i.tokens w) ∙ token_from-walk r.0 0 w in
    elim (Bool-cases (bytes_eq bs w)) [
      | inl p ↦
          let same = bytes_eq-true bs w p in
          let there : walk r.0 0 w ≡ some r.1 =
            subst (λ (x : Bytes). walk r.0 0 x ≡ some r.1) same i.path in
          rw p (
            reached
            ∙ ap (token_at (insert_word t bs id)) there
            ∙ token_at-set_same r.0 r.1 id i.last)
      | inr p ↦ rw p (
          reached
          ∙ token_at-set_other r.0 r.1 id (walk r.0 0 w) i.last
              (λ e. other_word r.0 r.1 bs w i.tree p i.path e)
          ∙ sym before)
    ]
