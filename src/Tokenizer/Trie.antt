-- ===== src/Tokenizer/Trie.antt =====
-- engine/tokenizer.h and engine/tokenizer_rwkv.cpp: the trie of an RWKV vocabulary and its loading.
pub mod Values
pub mod Insertion
pub mod Loading
use palm_infra.Common.{
  ℕ, zero, suc, ◌+◌, ◌-◌, leb, ltb, ◌==◌, Bool, true, false, not, ◌&&◌, ◌||◌, Option, none, some,
  List, [], ◌∷◌, ◌++◌, if◌then◌else◌, length, get_or, set, replicate, ℤ, pos, negsuc,
}
use palm_infra.Tokenizer.Bytes.{Bytes, find_byte, rfind_byte, substr}
use palm_infra.Tokenizer.Literal.{rwkv_literal}

-- `next` maps bytes to node numbers; a token of -1 is none.
pub record TrieNode : Type 0 where
  pub next : List (ℕ × ℕ)
  pub token : ℤ

abbrev pub no_token : ℤ
no_token = negsuc 0

abbrev pub empty_node : TrieNode
empty_node = record { next = []; token = no_token }

abbrev pub Trie : Type 0
Trie = List TrieNode

pub find_next : ℕ → List (ℕ × ℕ) → Option ℕ
find_next b [] = none
find_next b ((c, n) ∷ edges) = if c == b then some n else find_next b edges

abbrev pub node_at : Trie → ℕ → TrieNode
node_at trie n = get_or trie n empty_node

unfoldable pub child : Trie → ℕ → ℕ → Option ℕ
unfolding find_next
child trie n b = find_next b (node_at trie n).next

-- A new node at the end, and an edge to it.
pub add_edge : Trie → ℕ → ℕ → Trie
add_edge trie n b =
    let node = node_at trie n in
    set trie n (record node { next = (b, length trie) ∷ node.next }) ++ empty_node ∷ []

-- The loop over the bytes of a word, from a node on.
pub insert_bytes : Trie → ℕ → Bytes → Trie × ℕ
unfolding child add_edge
insert_bytes trie n [] = (trie, n)
insert_bytes trie n (b ∷ bs) = elim (child trie n b) [
  | some m ↦ insert_bytes trie m bs
  | none ↦ insert_bytes (add_edge trie n b) (length trie) bs
]

pub set_token : Trie → ℕ → ℤ → Trie
set_token trie n id = set trie n (record (node_at trie n) { token = id })

-- The vocabulary as far as RWKV uses it.
pub record Vocabulary : Type 0 where
  pub rwkv_trie : Trie
  pub rwkv_id_to_bytes : List Bytes

abbrev pub no_vocabulary : Vocabulary
no_vocabulary = record { rwkv_trie = empty_node ∷ []; rwkv_id_to_bytes = [] }

-- resize to at least so many entries, then the assignment.
pub store_bytes : List Bytes → ℕ → Bytes → List Bytes
store_bytes table id bytes =
    set (if leb (length table) id then table ++ replicate (id + 1 - length table) [] else table) id
      bytes

-- A line with an id and bytes that are not empty.
unfoldable pub add_token : Vocabulary → ℕ → Bytes → Vocabulary
unfolding insert_bytes set_token store_bytes
add_token v id bytes =
    let r = insert_bytes v.rwkv_trie 0 bytes in
    record {
      rwkv_trie = set_token r.0 r.1 (pos id);
      rwkv_id_to_bytes = store_bytes v.rwkv_id_to_bytes id bytes;
    }

-- The lines that are skipped, those that end the load, and the others.
pub data Line : Type 0 where
  skipped : Line
  malformed : Line
  entry : ℕ → Bytes → Line

-- An id and the bytes between the two spaces.
pub classify : ℤ → Bytes → Line
classify (negsuc n) bytes = Line.skipped
classify (pos id) [] = Line.skipped
classify (pos id) (b ∷ bs) = Line.entry id (b ∷ bs)

-- std::stoi is an argument: `none` if it throws.
module _ (stoi : Bytes → Option ℤ) where
  pub parse_between : Bytes → ℕ → ℕ → Line
  unfolding classify
  parse_between line first last =
      if leb last first then Line.skipped else elim (stoi (substr line 0 first)) [
        | none ↦ Line.malformed
        | some id ↦ classify id (rwkv_literal (substr line (first + 1) (last - first - 1)))
      ]

  unfoldable pub parse_line : Bytes → Line
  unfolding parse_between
  parse_line line = elim (find_byte b' ' line) [
    | none ↦ Line.skipped
    | some first ↦ elim (rfind_byte b' ' line) [
      | none ↦ Line.skipped
      | some last ↦ parse_between line first last
    ]
  ]

  -- The loop over the lines, and whether it ended with the file.
  unfoldable pub load_lines : Vocabulary → List Bytes → Vocabulary × Bool
  load_lines v [] = (v, true)
  load_lines v (line ∷ lines) = elim (parse_line line) [
    | Line.skipped ↦ load_lines v lines
    | Line.malformed ↦ (v, false)
    | Line.entry id bytes ↦ load_lines (add_token v id bytes) lines
  ]

  -- The lines of the file, `none` if it does not open. A file that does not open changes nothing.
  unfoldable pub load_rwkv_vocab : Vocabulary → Option (List Bytes) → Vocabulary × Bool
  unfolding load_lines
  load_rwkv_vocab v none = (v, false)
  load_rwkv_vocab v (some lines) =
      let r = load_lines no_vocabulary lines in (r.0, r.1 && ltb 1 (length r.0.rwkv_trie))
