-- ===== src/ExpertCache/Store/Sizes.antt =====
-- The size that reserve_entry_locked of cache.cpp checks, and the size that its entry takes.
use palm_infra.Common.{
  ℕ, ◌+◌, ◌≤◌, Bool, true, false, ◌&&◌, if◌then◌else◌, Option, none, some, ◌≡◌, refl, arith,
  word_max, Option-cases, inl, inr,
}
use palm_infra.ExpertCache.Spec.{
  TensorSpec, TensorSource, source_bytes, source_capacity_bytes, expert_pair_bytes,
}
use palm_infra.ExpertCache.State.{Arena, ByteBuffer, Entry, entry_bytes}
use palm_infra.ExpertCache.Buffers.{
  resize, resize_all, resize_in_arena, if_sized, resize_all_in_arena,
}

abbrev pub OnSome {ℓ κ} : {A : Type ℓ} → (A → Type κ) → Option A → Type κ
OnSome P none = Unit
OnSome P (some a) = P a

pub OnSome-if {ℓ κ} :
    {A : Type ℓ} (P : A → Type κ) (b : Bool) (x y : Option A)
    → OnSome P x
    → OnSome P y
    → OnSome P (if b then x else y)
OnSome-if P true x y h k = h
OnSome-if P false x y h k = k

source_bytes_sum :
    (s : TensorSpec) (n : ℕ)
    → source_bytes s ≡ some n
    → (n ≡ s.data_bytes + s.scales_bytes) × (n ≤ word_max)
unfolding source_bytes
source_bytes_sum s n h = ground arith

source_capacity_bytes_sum :
    (page : ℕ) (s : TensorSpec) (alignment n : ℕ)
    → source_capacity_bytes page s alignment ≡ some n
    → (s.data_bytes + s.scales_bytes ≤ n) × (n ≤ word_max)
unfolding source_capacity_bytes
source_capacity_bytes_sum page s alignment n h = elim (Option-cases (source_bytes s)) [
  | inl missing ↦ ground arith
  | inr (m, found) ↦ ground (arith, source_bytes_sum s m found)
]

abbrev pub pair_sum : TensorSource → TensorSource → ℕ
pair_sum gate_up down =
    gate_up.spec.data_bytes + gate_up.spec.scales_bytes + down.spec.data_bytes
    + down.spec.scales_bytes

pub expert_pair_bytes_sum :
    (page : ℕ) (gate_up down : TensorSource) (alignment n : ℕ)
    → expert_pair_bytes page gate_up down alignment ≡ some n
    → (pair_sum gate_up down ≤ n) × (n ≤ word_max)
unfolding expert_pair_bytes
expert_pair_bytes_sum page gate_up down alignment n h =
    elim (Option-cases (source_capacity_bytes page gate_up.spec alignment)) [
      | inl missing ↦ ground arith
      | inr (m, found) ↦ elim (Option-cases (source_capacity_bytes page down.spec alignment)) [
        | inl missing ↦ ground arith
        | inr (k, found') ↦ ground (
          arith,
          source_capacity_bytes_sum page gate_up.spec alignment m found,
          source_capacity_bytes_sum page down.spec alignment k found',
        )
      ]
    ]

resize-length : (b : ByteBuffer) (n : ℕ) → (resize b n).length ≡ n
unfolding resize
resize-length b n = ground arith

resize_in_arena-length : (b : ByteBuffer) (n : ℕ) (a : Arena) → (resize_in_arena b n a).0.length ≡ n
unfolding resize_in_arena
resize_in_arena-length b n a = ground arith

pub resize_all-bytes :
    (e : Entry) (gate_up down : TensorSource)
    → pair_sum gate_up down ≤ word_max
    → entry_bytes (resize_all e gate_up down) ≡ pair_sum gate_up down
unfolding resize_all entry_bytes
resize_all-bytes e gate_up down h = omega (
  arith,
  resize-length e.gate_up_data gate_up.spec.data_bytes,
  resize-length e.gate_up_scales gate_up.spec.scales_bytes,
  resize-length e.down_data down.spec.data_bytes,
  resize-length e.down_scales down.spec.scales_bytes,
)

-- The entry of the same expert with buffers of the sizes that its pair asks for.
pub record IsSizing (g d : TensorSource) (e e' : Entry) : Type 0 where
  pub address : e'.address ≡ e.address
  pub gate_up : e'.gate_up ≡ e.gate_up
  pub down : e'.down ≡ e.down
  pub expert : e'.expert ≡ e.expert
  pub state : e'.state ≡ e.state
  pub pins : e'.pins ≡ e.pins
  pub pending_reads : e'.pending_reads ≡ e.pending_reads
  pub bytes : entry_bytes e' ≡ pair_sum g d

pub resize_all-IsSizing :
    (e : Entry) (gate_up down : TensorSource)
    → pair_sum gate_up down ≤ word_max
    → IsSizing gate_up down e (resize_all e gate_up down)
unfolding resize_all
resize_all-IsSizing e gate_up down h = record {
  address = refl;
  gate_up = refl;
  down = refl;
  expert = refl;
  state = refl;
  pins = refl;
  pending_reads = refl;
  bytes = resize_all-bytes e gate_up down h;
}

abbrev buffers_set : Entry → ByteBuffer → ByteBuffer → ByteBuffer → ByteBuffer → Entry
buffers_set e a b c d = record e {
  gate_up_data = a;
  gate_up_scales = b;
  down_data = c;
  down_scales = d;
}

buffers_set-IsSizing :
    (e : Entry) (gate_up down : TensorSource) (a b c d : ByteBuffer)
    → pair_sum gate_up down ≤ word_max
    → a.length ≡ gate_up.spec.data_bytes
    → b.length ≡ gate_up.spec.scales_bytes
    → c.length ≡ down.spec.data_bytes
    → d.length ≡ down.spec.scales_bytes
    → IsSizing gate_up down e (buffers_set e a b c d)
unfolding entry_bytes
buffers_set-IsSizing e gate_up down a b c d h ha hb hc hd = record {
  address = refl;
  gate_up = refl;
  down = refl;
  expert = refl;
  state = refl;
  pins = refl;
  pending_reads = refl;
  bytes = omega arith;
}

if_sized-IsSizing :
    (done : Bool) (e : Entry) (gate_up down : TensorSource) (a b c d : ByteBuffer)
    → IsSizing gate_up down e (buffers_set e a b c d)
    → OnSome (IsSizing gate_up down e) (if_sized done e a b c d)
unfolding if_sized
if_sized-IsSizing true e gate_up down a b c d h = h
if_sized-IsSizing false e gate_up down a b c d h = tt

pub resize_all_in_arena-IsSizing :
    (e : Entry) (gate_up down : TensorSource) (a : Arena)
    → pair_sum gate_up down ≤ word_max
    → OnSome (IsSizing gate_up down e) (resize_all_in_arena e gate_up down a).0
unfolding resize_all_in_arena
resize_all_in_arena-IsSizing e gate_up down a h =
    let (b0, a0, done0) = resize_in_arena e.gate_up_data gate_up.spec.data_bytes a in
    let (b1, a1, done1) = resize_in_arena e.gate_up_scales gate_up.spec.scales_bytes a0 in
    let (b2, a2, done2) = resize_in_arena e.down_data down.spec.data_bytes a1 in
    let (b3, a3, done3) = resize_in_arena e.down_scales down.spec.scales_bytes a2 in
    if_sized-IsSizing (done0 && done1 && done2 && done3) e gate_up down b0 b1 b2 b3 (
      buffers_set-IsSizing e gate_up down b0 b1 b2 b3 h
        (resize_in_arena-length e.gate_up_data gate_up.spec.data_bytes a)
        (resize_in_arena-length e.gate_up_scales gate_up.spec.scales_bytes a0)
        (resize_in_arena-length e.down_data down.spec.data_bytes a1)
        (resize_in_arena-length e.down_scales down.spec.scales_bytes a2))
