-- ===== src/Tokenizer/Trie/Values.antt =====
-- engine/tokenizer_rwkv.cpp: the token that a trie gives to each word, and what inserting changes.
use palm_infra.Common.{
  ℕ, ◌+◌, ◌<◌, ◌==◌, true, ◌&&◌, Option, none, some, [], ◌∷◌, ◌++◌, ◌≡◌, refl, ◌∙◌, ap, inl, inr,
  arith, if◌then◌else◌, set, length, length-set, length-append, get_or-set, get_or-append_default,
  get_or-out, ℤ, Bool-cases, Option-cases,
}
use palm_infra.Tokenizer.Bytes.{Bytes}
use palm_infra.Tokenizer.Trie.{
  Trie, TrieNode, no_token, empty_node, node_at, find_next, child, add_edge, set_token,
}

-- The token of the word that is read from a node on.
abbrev pub token_from : Trie → ℕ → Bytes → ℤ
token_from trie n [] = (node_at trie n).token
token_from trie n (b ∷ w) = elim (child trie n b) [ none ↦ no_token | some m ↦ token_from trie m w ]

abbrev pub walk : Trie → ℕ → Bytes → Option ℕ
walk trie n [] = some n
walk trie n (b ∷ w) = elim (child trie n b) [ none ↦ none | some m ↦ walk trie m w ]

-- Each node has the one word that leads to it.
pub record IsTree (trie : Trie) : Type 0 where
  pub label : ℕ → Bytes
  pub root : label 0 ≡ []
  pub some_node : 0 < length trie
  pub edge :
      (n b m : ℕ) → child trie n b ≡ some m → (m < length trie) × (label m ≡ label n ++ b ∷ [])

child_in_range : (t : Trie) (k c m : ℕ) → child t k c ≡ some m → k < length t
unfolding child find_next
child_in_range t k c m e = ground (arith, get_or-out t k empty_node)

pub length-add_edge : (t : Trie) (n b : ℕ) → length (add_edge t n b) ≡ length t + 1
unfolding add_edge
length-add_edge t n b =
    let node = node_at t n in
    let node' = record node { next = (b, length t) ∷ node.next } in
    omega (arith, length-append (set t n node') (empty_node ∷ []), length-set t n node')

node_at-add_edge :
    (t : Trie) (n b k : ℕ)
    → n < length t
    → node_at (add_edge t n b) k ≡ (
        if n == k
        then record (node_at t n) { next = (b, length t) ∷ (node_at t n).next }
        else node_at t k)
unfolding add_edge
node_at-add_edge t n b k h =
    let node = record (node_at t n) { next = (b, length t) ∷ (node_at t n).next } in
    get_or-append_default (set t n node) 1 k empty_node ∙ get_or-set t n k node empty_node h

pub child-add_edge :
    (t : Trie) (n b k c : ℕ)
    → n < length t
    → child (add_edge t n b) k c ≡ (if n == k && b == c then some (length t) else child t k c)
unfolding child find_next
child-add_edge t n b k c h = ground (arith, node_at-add_edge t n b k)

token-add_edge :
    (t : Trie) (n b k : ℕ) → n < length t → (node_at (add_edge t n b) k).token ≡ (node_at t k).token
token-add_edge t n b k h = ground (arith, node_at-add_edge t n b k)

pub node_at-set_token :
    (t : Trie) (n k : ℕ) (id : ℤ)
    → n < length t
    → node_at (set_token t n id) k
      ≡ (if n == k then record (node_at t n) { token = id } else node_at t k)
unfolding set_token
node_at-set_token t n k id h = get_or-set t n k (record (node_at t n) { token = id }) empty_node h

pub child-set_token :
    (t : Trie) (n k c : ℕ) (id : ℤ) → n < length t → child (set_token t n id) k c ≡ child t k c
unfolding child
child-set_token t n k c id h = ground (arith, node_at-set_token t n k id)

token_from-leaf :
    (t : Trie) (n : ℕ) (w : Bytes) → node_at t n ≡ empty_node → token_from t n w ≡ no_token
unfolding child find_next
token_from-leaf t n [] e = ap (λ (x : TrieNode). x.token) e
token_from-leaf t n (b ∷ w) e = ground arith

new_node-empty :
    (t : Trie) (n b : ℕ) → n < length t → node_at (add_edge t n b) (length t) ≡ empty_node
new_node-empty t n b h =
    ground (arith, node_at-add_edge t n b (length t), get_or-out t (length t) empty_node)

module _ (t : Trie) (v : IsTree t) (n b : ℕ) (h : n < length t) (free : child t n b ≡ none) where
  pub add_edge-IsTree : IsTree (add_edge t n b)
  add_edge-IsTree = record {
    label = λ k. if k == length t then v.label n ++ b ∷ [] else v.label k;
    root = let r = v.root in let s = v.some_node in ground arith;
    some_node = omega (arith, length-add_edge t n b);
    edge = new_edge;
  }
    where
      new_edge :
          (k c m : ℕ)
          → child (add_edge t n b) k c ≡ some m
          → (m < length (add_edge t n b))
            × ((if m == length t then v.label n ++ b ∷ [] else v.label m)
                ≡ (if k == length t then v.label n ++ b ∷ [] else v.label k) ++ c ∷ [])
      new_edge k c m e = ground (
        arith,
        child-add_edge t n b k c h,
        length-add_edge t n b,
        v.edge k c m,
        child_in_range t k c m,
      )

  -- Nothing is said of a new word before its token is set.
  pub token_from-add_edge :
      (k : ℕ) (w : Bytes) → k < length t → token_from (add_edge t n b) k w ≡ token_from t k w
  token_from-add_edge k [] l = token-add_edge t n b k h
  token_from-add_edge k (c ∷ w) l =
      let new = child-add_edge t n b k c h in
      let ih : (m : ℕ) → m < length t → token_from (add_edge t n b) m w ≡ token_from t m w =
        λ m q. token_from-add_edge m w q in
      elim (Bool-cases (n == k && b == c)) [
        | inl p ↦ at_new k c p (new ∙ rw p refl)
        | inr p ↦ elim (Option-cases (child t k c)) [
          | inl e ↦ rw (new, p, e, token_from)
          | inr (m, e) ↦ rw (new, p, e, token_from) (ih m (v.edge k c m e).0)
        ]
      ]
    where
      at_new :
          (k c : ℕ)
          → (n == k && b == c) ≡ true
          → child (add_edge t n b) k c ≡ some (length t)
          → token_from (add_edge t n b) k (c ∷ w) ≡ token_from t k (c ∷ w)
      at_new k c p e =
          ground
            (arith, token_from-leaf (add_edge t n b) (length t) w (new_node-empty t n b h), free)
