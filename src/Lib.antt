-- ===== src/Lib.antt =====
-- A model of the storage side of mollm, the inference engine for models that do not fit in memory, of
-- its tokenizer for RWKV vocabularies, its sampler and its thread pool.
--
-- The program reads a package file that holds a model. Dense weights are mapped
-- (storage/mapped_file.cpp); the experts of mixture-of-experts layers stay in the file and are read
-- on demand into a bounded cache (storage/ssd_expert_cache), the largest part modelled here. The
-- engine registers the expert tensors of the package, asks for the experts of each layer's route, or
-- of a predicted route, and borrows them under leases while kernels compute; worker threads read the
-- queued components. A prompt is encoded by the tokenizer before, and the ids that the sampler draws
-- are decoded after; kernels split their ranges and grids among the threads of runtime/threading.cpp.
--
--   Common       numbers, lists, C++ integers, 64-bit words, floats as bit patterns that are compared
--   Precision    core/tensor.h, the element types, and the block sizes of
--                kernels/cpu/matmul/gguf_k.cpp
--   ByteRanges   storage/byte_ranges.cpp: normalize_byte_ranges and range_contains
--   BufferPool   runtime/host_buffer_pool.cpp: acquire, release, clear and their buckets
--   ExpertCache  storage/ssd_expert_cache: cache.cpp, cache.h, internal.h, io.cpp, provider.cpp
--     Spec, Ranges        the descriptors of expert tensors, with the checks of their file ranges
--     State               entries, buffers, indexes, configuration, policy, counters and queues
--     Register            add_source and find_source; Registration on what they let through
--     Configure           the configuration calls, clear_resident and begin_forward_pass; Quotas on
--                         the calculation of configure_shallow_favoring
--     Victim, Remove      the choice of a victim and remove_entry_locked; Preferences on their order
--     Eviction            the eviction loop of reserve_entry_locked
--     Buffers, Reserve    the buffers of an entry and the rest of reserve_entry_locked
--     Io                  the read jobs, from enqueue_entry_reads_locked to io_worker_main; Reads on
--                         the life of an entry
--     Notes, Request      request_many_impl
--     Acquire             acquire_impl and the leases of provider.cpp
--     Advice, Retain      the queries and retain_for_next_forward; Prefetching and Retention on them
--     Store               the invariant of the resident set and what each call keeps of it: under
--                         it, Sharing on the quotas, Configuring and Registering on the calls before
--                         entries are resident
--     System              the calls that change the cache as the steps of one state machine
--   MappedFile   storage/mapped_file.cpp: the header of a weight blob, its checks and parse_header
--     Bytes, Format       the documented layout as a writer, and parse_header on it
--     Ranges              what an accepted header promises
--     Handles             map_file, open, close and the moves, with who owns a mapping
--   Tokenizer    engine/tokenizer_rwkv.cpp, and decode of engine/tokenizer.cpp
--     Bytes, Literal      byte strings, and the literals of the vocabulary file
--     Trie                load_rwkv_vocab; Values and Insertion on the words of a trie, Loading on
--                         the loaded vocabulary
--     Rwkv                encode_rwkv, decode, the legacy template's flag; Greedy and RoundTrip on them
--   Threading    runtime/threading.cpp
--     Shards, Tiles       parallel_for_impl and compute_shard, decode_2d_job
--     Stealing            parallel_for_2d_impl and worker_loop as moves of the threads; Once, Moves
--                         and Progress on them
--   Sampler      engine/sampler.cpp, and the argmax of backends/cpu/host_compute.cpp
--     Valid               validate_sampling_params
--     Candidates          the bounded heap of prepare_candidates; TopK and Ranking on it
--     Choice              the rest of prepare_candidates, sample_token_impl; Ids and Bounds on them
--     Penalties           Sampler::sample; Restored on the logits it leaves
--     Weights             sample_probabilities and speculative_sample; Mass on what they draw
--   Sample, Tests         a small cache, and the theorems at concrete inputs
--
-- The model is of the build without Apple's buffer pool and without CUDA. A pointer to an entry is a
-- number, and `next_address` stands for the allocator: it is an address that no entry has had. The
-- page size is a field of the configuration. Counters are 64-bit words that wrap; byte counts are not
-- reduced, since the capacity, a word, bounds them. An unordered map is a function into Option,
-- a vector or a list is a List, entry_locations_ is the position of an entry in `entries`. A job
-- names one entry, since the window of enqueue_entry_reads_locked is 1. A call is cut where the
-- source gives up the mutex: acquire_impl is acquire_start, any number of acquire_retry, and
-- acquire_finish. Float products, sums and quotients are parameters, comparisons are computed from
-- the bit patterns. The bytes of a file or text are numbers below 256; the machine stores integers with
-- the low byte first. What the system answers to open, fstat and mmap, the lines of a vocabulary file
-- and std::stoi are arguments. The trie of a vocabulary is a list of nodes; the position in a text is
-- what is left of it, and encode_rwkv runs on as many rounds as there are bytes, since each token takes
-- one. The heap of the sampler is its elements in order, and a map of counts hands them out in any order
-- that an argument gives. Double arithmetic, exp, rand_r and std::sort under an order are taken as the
-- library documents them. The int values of the thread pool are non-negative, and a call in which one
-- overflows, which C++ leaves undefined, is `none`. The eviction loop of reserve_entry_locked runs on
-- fuel, one more than there are entries: each round removes one. Running out of it would give a
-- pointer at which there is no entry. The loop of BufferPool::round_up runs on 54 rounds, which reach
-- 2 to the 63.
--
-- Not modelled: the bytes of the buffers and the system calls that read them, times, traces, log
-- output and sums of confidences; MoeSsdCache::open and load_resident; make_tensor; the vendored
-- libraries, the kernels and accelerator backends, byte-pair tokenizers and chat templates,
-- Sampler::probabilities, the graph, the engine's loop, packages, and the Python converters; of the thread pool the ready flags
-- with their generations, parking and resize.
pub mod Common
pub mod ByteRanges
pub mod BufferPool
pub mod Precision
pub mod MappedFile
pub mod Tokenizer
pub mod Threading
pub mod Sampler
pub mod ExpertCache
mod Tests
