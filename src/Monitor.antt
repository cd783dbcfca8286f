-- ===== src/Monitor.antt =====
-- The list of discovered items of nic_monitor (src/nic_monitor_di.c): the store of the objects,
-- the sorted insertion, and the lookup that creates what it does not find.
-- The list owns its objects: a pointer is followed by looking its address up in the list, and a
-- pointer to no object of the list is dangling, which is a fault, as is an access outside the
-- table of the cache. `none` stands for a fault.
pub mod Store
pub mod Insert
pub mod Lookup
pub mod Cached
pub mod Create
pub mod Findcreate
pub mod Consistency
pub mod Samples
mod Tests
use ltntstools.Base.{
  ℕ, zero, suc, ◌+◌, ◌*◌, ◌^◌, Bool, true, false, not, ◌&&◌, Option, none, some, List, [], ◌∷◌, ltb,
  leb, ◌==◌, if◌then◌else◌, length, bit_or,
}
use ltntstools.Document
use ltntstools.Document.{Document, Line, Memory}
use ltntstools.Item.{
  Flag, PayloadType, Headers, Discovery, DiscoveredItem, mask, state_set, state_clr, is_set, ntohl,
  network_addr_compare,
}
use ltntstools.HashIndex
use ltntstools.HashIndex.{HashIndex, compute_stream_hash, dead}

-- The fields of struct tool_context_s that the list and its cache use.
pub record ToolContext : Type 0 where
  pub list : List DiscoveredItem
  pub hash_index : HashIndex
  pub cache_hit : ℕ
  pub cache_miss : ℕ
  pub automatically_record_streams : Bool
  pub automatically_json_probe_streams : Bool
  pub last_list_housekeeping : ℕ

-- What one call finds outside: the clock, the address that `calloc` returns (`none` for NULL),
-- and the memory and the text for the first line of the log.
pub record Environment : Type 0 where
  pub now : ℕ
  pub fresh : Option ℕ
  pub memory : Memory
  pub logging_begins : Line

-- Following a pointer.
unfoldable pub find_addr : ℕ → List DiscoveredItem → Option DiscoveredItem
find_addr a [] = none
find_addr a (e ∷ rest) = if e.addr == a then some e else find_addr a rest

-- A write through a pointer.
unfoldable pub update_addr :
    ℕ → (DiscoveredItem → DiscoveredItem) → List DiscoveredItem → List DiscoveredItem
update_addr a f [] = []
update_addr a f (e ∷ rest) = if e.addr == a then f e ∷ rest else e ∷ update_addr a f rest

-- The key of the sort: `ntohl(daddr) << 16 | dest` in 64 bits, `dest` in network byte order.
unfoldable pub sort_key : Headers → ℕ
sort_key h = bit_or (ntohl h.daddr * 2 ^ 16) h.dest

-- is_di_dst_duplicate
unfoldable pub is_di_dst_duplicate : DiscoveredItem → DiscoveredItem → Bool
unfolding sort_key
is_di_dst_duplicate x y = sort_key x.headers == sort_key y.headers

-- discovered_item_insert
unfoldable pub insert : DiscoveredItem → List DiscoveredItem → List DiscoveredItem
insert di [] = di ∷ []
insert di (e ∷ rest) =
    if ltb (sort_key e.headers) (sort_key di.headers)
    then e ∷ insert di rest
    else if sort_key e.headers == sort_key di.headers
    then state_set di (mask Flag.dst_duplicate) ∷ state_set e (mask Flag.dst_duplicate) ∷ rest
    else di ∷ e ∷ rest

-- The zeroed document of `calloc`, for the one that is never initialised.
abbrev blank_document : Document
blank_document = record {
  lines = [];
  line_count = 0;
  display_line_from = 0;
  page_size = 0;
  max_page_size = 0;
}

-- discovered_item_alloc, in the fields that are modelled.
unfoldable pub discovered_item_alloc : Environment → ℕ → Headers → ℕ → DiscoveredItem
discovered_item_alloc env addr h hash = record {
  addr = addr;
  headers = h;
  payload_type = PayloadType.undefined;
  state = 0;
  last_updated = env.now;
  cache_hash_key = hash;
  has_hidden_duplicates = false;
  forward_slot_nr = 0;
  discovery = record {
    unidentified = 0;
    a324_found = 0;
    smpte2110_video_found = 0;
    smpte2110_audio_found = 0;
    smpte2110_anc_found = 0;
  };
  doc_stream_log = (Document.append env.memory Document.initialize env.logging_begins).0;
  doc_scte35 = blank_document;
}

-- The loop over the entries of one hash, from the enumerator on. The outer `none` is a fault, or
-- fuel that ran out; the inner one is NULL.
unfoldable pub search_cache :
    ℕ → List DiscoveredItem → HashIndex → Headers → ℕ → ℕ → Option (Option ℕ)
search_cache zero list index h hash enumerator = none
search_cache (suc fuel) list index h hash enumerator =
    elim (HashIndex.get_enum index hash enumerator) [
      | none ↦ none
      | some none ↦ some none
      | some (some (item, next)) ↦ elim (not (item == 0) && not (item == dead)) [
        | false ↦ search_cache fuel list index h hash next
        | true ↦ elim (find_addr item list) [
          | none ↦ none
          | some e ↦ elim (network_addr_compare h e.headers) [
            | true ↦ some (some item)
            | false ↦ search_cache fuel list index h hash next
          ]
        ]
      ]
    ]

-- The cached lookup of discovered_item_findcreate: no search where the count is 0.
unfoldable pub find_cached : ToolContext → Headers → Option (Option ℕ)
find_cached ctx h = elim (HashIndex.get_count ctx.hash_index (compute_stream_hash h)) [
  | none ↦ none
  | some count ↦
      if leb 1 count
      then search_cache (count + 1) ctx.list ctx.hash_index h (compute_stream_hash h) 0
      else some none
]

-- The search that the cache replaces, still in the source: every object of the list.
unfoldable pub find_linear : List DiscoveredItem → Headers → Option ℕ
find_linear [] h = none
find_linear (e ∷ rest) h =
    if network_addr_compare h e.headers then some e.addr else find_linear rest h

-- The flags that discovered_item_findcreate puts on a new object.
unfoldable pub automatic_flags : ToolContext → DiscoveredItem → DiscoveredItem
automatic_flags ctx di =
    let recorded : DiscoveredItem =
      if ctx.automatically_record_streams then state_set di (mask Flag.pcap_record_start) else di in
    if ctx.automatically_json_probe_streams
    then state_set recorded (mask Flag.json_probe_active)
    else recorded

-- The object that was missing: allocated, inserted, cached, flagged.
unfoldable pub create : Environment → ToolContext → Headers → Option (Option ℕ × ToolContext)
unfolding automatic_flags
create env ctx h = elim env.fresh [
  | none ↦ some (none, ctx)
  | some addr ↦
      let hash = compute_stream_hash h in
      let inserted = insert (discovered_item_alloc env addr h hash) ctx.list in
      elim (HashIndex.add ctx.hash_index hash addr) [
        | none ↦ none
        | some index ↦ some (
          some addr,
          record ctx { list = update_addr addr (automatic_flags ctx) inserted; hash_index = index },
        )
      ]
]

-- discovered_item_findcreate: the pointer that it returns, and the context after it.
unfoldable pub findcreate : Environment → ToolContext → Headers → Option (Option ℕ × ToolContext)
findcreate env ctx h = elim (find_cached ctx h) [
  | none ↦ none
  | some (some item) ↦ some (some item, record ctx { cache_hit = ctx.cache_hit + 1 })
  | some none ↦ create env (record ctx { cache_miss = ctx.cache_miss + 1 }) h
]
