-- ===== src/ExpertCache/Buffers.antt =====
-- The byte buffers and the resident arena of storage/ssd_expert_cache/internal.h, outside Apple
-- platforms, and the sizing of an entry's four buffers in reserve_entry_locked.
use palm_infra.Common.{
  ℕ, ◌+◌, ◌-◌, ◌*◌, ◌/◌, ltb, ◌==◌, Bool, true, false, not, ◌&&◌, ◌||◌, if◌then◌else◌, Option, none,
  some, add64,
}
use palm_infra.ExpertCache.Spec.{TensorSource}
use palm_infra.ExpertCache.State.{Arena, ByteBuffer, Entry}

-- ResidentArena::allocate, without the address: the arena after it if there is room.
unfoldable pub allocate : Arena → ℕ → Option Arena
allocate a bytes =
    let padded = add64 bytes 63 / 64 * 64 in
    if bytes == 0
    then none
    else if ltb padded bytes || ltb (a.capacity - a.used) padded
    then none
    else some (record a { used = a.used + padded })

-- ByteBuffer::resize_in_arena: the buffer, the arena, and whether it has its slice.
unfoldable pub resize_in_arena : ByteBuffer → ℕ → Arena → ByteBuffer × Arena × Bool
unfolding allocate
resize_in_arena b bytes a =
    let b' : ByteBuffer = record { length = bytes; locked = a.locked; in_arena = true } in
    elim (allocate a bytes) [ none ↦ (b', a, bytes == 0) | some a' ↦ (b', a', true) ]

-- ByteBuffer::resize.
unfoldable pub resize : ByteBuffer → ℕ → ByteBuffer
resize b bytes =
    if b.length == bytes then b else record { length = bytes; locked = false; in_arena = false }

unfoldable pub if_sized :
    Bool → Entry → ByteBuffer → ByteBuffer → ByteBuffer → ByteBuffer → Option Entry
if_sized false e b0 b1 b2 b3 = none
if_sized true e b0 b1 b2 b3 =
    some (record e { gate_up_data = b0; gate_up_scales = b1; down_data = b2; down_scales = b3 })

-- The chain of four resizes in the arena, which stops at the first one without a slice.
unfoldable pub resize_all_in_arena :
    Entry → TensorSource → TensorSource → Arena → Option Entry × Arena
unfolding resize_in_arena
resize_all_in_arena e gate_up down a =
    let (b0, a0, done0) = resize_in_arena e.gate_up_data gate_up.spec.data_bytes a in
    let (b1, a1, done1) = resize_in_arena e.gate_up_scales gate_up.spec.scales_bytes a0 in
    let (b2, a2, done2) = resize_in_arena e.down_data down.spec.data_bytes a1 in
    let (b3, a3, done3) = resize_in_arena e.down_scales down.spec.scales_bytes a2 in
    (
      if_sized (done0 && done1 && done2 && done3) e b0 b1 b2 b3,
      if not done0 then a0 else if not done1 then a1 else if not done2 then a2 else a3,
    )

unfoldable pub resize_all : Entry → TensorSource → TensorSource → Entry
unfolding resize
resize_all e gate_up down = record e {
  gate_up_data = resize e.gate_up_data gate_up.spec.data_bytes;
  gate_up_scales = resize e.gate_up_scales gate_up.spec.scales_bytes;
  down_data = resize e.down_data down.spec.data_bytes;
  down_scales = resize e.down_scales down.spec.scales_bytes;
}
