-- ===== src/ExpertCache/Io.antt =====
-- storage/ssd_expert_cache/io.cpp: the read jobs of an entry, how a worker takes one, and what its
-- completion does to the entry. A job names one entry, since kWindow is 1.
use palm_infra.Common.{
  ℕ, ◌+◌, ◌-◌, ◌==◌, Bool, ◌&&◌, if◌then◌else◌, Option, none, some, List, [], ◌∷◌, ◌++◌, int_lt,
  add64,
}
use palm_infra.Precision.{Precision, precision_eq}
use palm_infra.ExpertCache.Spec.{data_file_offset, scales_file_offset}
use palm_infra.ExpertCache.State.{
  ByteBuffer, Entry, EntryState, IoJob, Queues, Counters, Cache, entry_bytes, is_ready, deref, bump,
}

unfoldable pub component_buffer : Entry → ℕ → ByteBuffer
component_buffer e component =
    if component == 0
    then e.gate_up_data
    else if component == 1
    then e.gate_up_scales
    else if component == 2
    then e.down_data
    else e.down_scales

unfoldable pub component_offset : Entry → ℕ → ℕ
component_offset e component =
    if component == 0
    then data_file_offset e.gate_up.spec e.expert
    else if component == 1
    then scales_file_offset e.gate_up.spec e.expert
    else if component == 2
    then data_file_offset e.down.spec e.expert
    else scales_file_offset e.down.spec e.expert

-- A write through a pointer.
unfoldable pub modify : ℕ → (Entry → Entry) → List Entry → List Entry
modify p f [] = []
modify p f (e ∷ es) = if e.address == p then f e ∷ es else e ∷ modify p f es

-- std::sort by expert id; the entries of a request have different ones.
unfoldable pub insert_by_expert : Entry → List Entry → List Entry
insert_by_expert e [] = e ∷ []
insert_by_expert e (x ∷ xs) =
    if int_lt x.expert e.expert then x ∷ insert_by_expert e xs else e ∷ x ∷ xs

unfoldable pub sort_by_expert : List Entry → List Entry
unfolding insert_by_expert
sort_by_expert [] = []
sort_by_expert (e ∷ es) = insert_by_expert e (sort_by_expert es)

-- NVFP4 pairs whose data and scales are adjacent in the file.
unfoldable pub combines : Entry → Bool
unfolding component_buffer component_offset
combines e =
    precision_eq e.gate_up.spec.precision Precision.nvfp4
    && precision_eq e.down.spec.precision Precision.nvfp4
    && component_offset e 1 == add64 (component_offset e 0) (component_buffer e 0).length
    && component_offset e 3 == add64 (component_offset e 2) (component_buffer e 2).length

abbrev without_empty : Entry → ℕ → List ℕ → List ℕ
without_empty e component rest =
    if (component_buffer e component).length == 0 then rest else component ∷ rest

-- The components that are read by jobs of their own.
unfoldable pub components : Entry → List ℕ
unfolding combines component_buffer
components e = if combines e then 4 ∷ 5 ∷ [] else 0 ∷ without_empty e 1 (2 ∷ without_empty e 3 [])

-- One job for each component, at the back of its queue.
unfoldable pub push_jobs : Queues → ℕ → Bool → List ℕ → Queues
push_jobs q p low_priority [] = q
push_jobs q p low_priority (component ∷ cs) =
    let job : IoJob = record {
      entry = p;
      component = component;
      trace_id = q.next_trace_id;
      speculative = low_priority;
    } in
    let pushed : Queues =
      if low_priority
      then record q {
        low_priority_io_jobs = q.low_priority_io_jobs ++ job ∷ [];
        next_trace_id = bump q.next_trace_id;
      }
      else record q { io_jobs = q.io_jobs ++ job ∷ []; next_trace_id = bump q.next_trace_id } in
    push_jobs pushed p low_priority cs

abbrev count_list : List ℕ → ℕ
count_list [] = 0
count_list (x ∷ xs) = count_list xs + 1

unfoldable pub enqueue_entry : Cache → Bool → Entry → Cache
unfolding components push_jobs modify
enqueue_entry c low_priority e = record c {
  store = record c.store {
    entries =
        modify e.address
          (λ x. record x { pending_reads = x.pending_reads + count_list (components e) })
          c.store.entries;
  };
  queues = push_jobs c.queues e.address low_priority (components e);
}

unfoldable pub enqueue_all : Cache → Bool → List Entry → Cache
unfolding enqueue_entry
enqueue_all c low_priority [] = c
enqueue_all c low_priority (e ∷ es) = enqueue_all (enqueue_entry c low_priority e) low_priority es

-- enqueue_entry_reads_locked. Speculative entries keep their order.
unfoldable pub enqueue_entry_reads : Cache → List Entry → Bool → Cache
unfolding sort_by_expert enqueue_all
enqueue_entry_reads c es low_priority =
    enqueue_all c low_priority (if low_priority then es else sort_by_expert es)

-- io_worker_main, the part that takes a job: demand jobs before advisory ones.
unfoldable pub take_job : Queues → Option (IoJob × Queues)
take_job q = elim q.io_jobs [
  | job ∷ rest ↦ some (job, record q { io_jobs = rest })
  | [] ↦ elim q.low_priority_io_jobs [
    | job ∷ rest ↦ some (job, record q { low_priority_io_jobs = rest })
    | [] ↦ none
  ]
]

-- What one finished read does to its entry.
unfoldable pub finish_read : Bool → Entry → Entry
finish_read ok e =
    let pending = e.pending_reads - 1 in
    let after : EntryState = elim e.state [
      | EntryState.loading ↦ if ok then EntryState.loading else EntryState.loading_failed
      | EntryState.loading_failed ↦ EntryState.loading_failed
      | EntryState.ready ↦ EntryState.ready
      | EntryState.failed ↦ EntryState.failed
    ] in
    let done : EntryState = elim after [
      | EntryState.loading ↦ EntryState.ready
      | EntryState.loading_failed ↦ EntryState.failed
      | EntryState.ready ↦ EntryState.ready
      | EntryState.failed ↦ EntryState.ready
    ] in
    record e { pending_reads = pending; state = if pending == 0 then done else after }

unfoldable pub count_load : Counters → Entry → Counters
unfolding entry_bytes
count_load k e =
    let counted = record k { bytes_read = add64 k.bytes_read (entry_bytes e) } in
    if e.load_origin_speculative
    then record counted { prefetch_load_bytes = add64 k.prefetch_load_bytes (entry_bytes e) }
    else record counted { demand_load_bytes = add64 k.demand_load_bytes (entry_bytes e) }

-- io_worker_main, the part after the read.
unfoldable pub complete_job : Cache → IoJob → Bool → Cache
unfolding modify
complete_job c job ok = elim (deref c.store.entries job.entry) [
  | none ↦ c
  | some e ↦
      let e' = finish_read ok e in
      record c {
        store = record c.store { entries = modify job.entry (finish_read ok) c.store.entries };
        counters =
            if e'.pending_reads == 0 && is_ready e' then count_load c.counters e' else c.counters;
      }
]
