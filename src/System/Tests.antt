-- ===== src/System/Tests.antt =====
-- The invariant of the system after a search, its use, a key and a run of the housekeeping, and a use
-- after a run of the housekeeping that freed the object.
use ltntstools.Base.{ℕ, ◌≡◌, refl, true, Option, none, some, [], ◌∷◌, map}
use ltntstools.Document.{Line}
use ltntstools.HashIndex.{
  compute_stream_hash, cal_hash, get_count, get_enum, add, store, entry, remove,
}
use ltntstools.Item.{
  DiscoveredItem, state_set, state_get, state_clr, is_set, mask, position, ntohl, ntohs,
  network_addr_compare,
}
use ltntstools.Item.Samples.{second_headers}
use ltntstools.Monitor.{
  ToolContext, Environment, findcreate, find_cached, search_cache, create, insert,
  discovered_item_alloc, automatic_flags, update_addr, find_addr, sort_key, is_di_dst_duplicate,
}
use ltntstools.Monitor.Samples.{one_stream, environment}
use ltntstools.Housekeeping.{
  is_di_streaming, same_destination, conflict, stale_duplicate, mark_duplicate, count_if, settle,
  update_duplicate, addresses, update_duplicates, hide_stale, expired, purge, housekeeping,
}
use ltntstools.Keys.{Place, Reading, step, handle, apply_keys, keys}
use ltntstools.Selection.{select_all}
use ltntstools.Capture.{Frame, Handed, at_object, after_findcreate, reads_captured, see, handed}
use ltntstools.Payload.{determine_payload_type, type_number, reads}
use ltntstools.System.{System, press}

abbrev stamp : ℕ → Line
stamp t = t ∷ []

abbrev at_start : System
at_start = record {
  tool = one_stream;
  pending = none;
  place = Place.at_top;
  context = record {
    items = [];
    start_time = 100;
    last_reset_time = 100;
    last_socket_report = 0;
    record_as_ts = 1;
    record_with_segments = 1;
    show_ui_options = 0;
    show_forward_options = 0;
    freeze_display = 0;
  };
}

abbrev frame : Frame
frame = record {
  len = 1358;
  ether_type = 0x0800;
  protocol = 17;
  headers = second_headers;
  udp_len = 1324;
  captured = 1316;
  ptr = λ _. 0x47;
}

abbrev left_by {ℓ} : {A : Type ℓ} → ToolContext → Option (A × ToolContext) → ToolContext
left_by ctx none = ctx
left_by ctx (some (_, after)) = after

abbrev used_by : ToolContext → Option (ToolContext × Option (ℕ × Handed)) → ToolContext
used_by ctx none = ctx
used_by ctx (some (after, _)) = after

abbrev handed_by : Option (ToolContext × Option (ℕ × Handed)) → Option (ℕ × Handed)
handed_by none = none
handed_by (some (_, h)) = h

abbrev cleaned_by : ToolContext → Option ToolContext → ToolContext
cleaned_by ctx none = ctx
cleaned_by ctx (some after) = after

-- The object of the second stream is created at 8192.
abbrev searched : System
searched = record at_start {
  tool = left_by one_stream (findcreate environment one_stream second_headers);
  pending = some (8192, frame);
}

-- Its use takes the transport packets for what they are.
abbrev used_one : System
used_one = record searched {
  tool = used_by searched.tool (at_object 104 frame 8192 searched.tool);
  pending = none;
}

abbrev used_handed : Option (ℕ × Handed)
used_handed = handed_by (at_object 104 frame 8192 searched.tool)

-- The key that selects all streams.
abbrev all_key : Reading
all_key = record {
  running = true;
  c = b'S';
  now = 105;
  memory = record { realloc_ok = true; calloc_ok = true };
}

abbrev pressed_one : System
pressed_one = press stamp [] all_key used_one

abbrev at_end : System
at_end = record pressed_one {
  tool = cleaned_by pressed_one.tool (housekeeping 110 pressed_one.tool);
}

abbrev listed : DiscoveredItem → ℕ × ℕ
listed e = (e.addr, e.state)

-- Both streams are selected and, silent for more than five seconds, hidden; neither was freed.
listed_at_end : map listed at_end.tool.list ≡ (8192, 645) ∷ (4096, 641) ∷ []
unfolding findcreate find_cached search_cache create insert discovered_item_alloc automatic_flags
    update_addr find_addr sort_key compute_stream_hash cal_hash ntohl ntohs network_addr_compare
    state_set mask position get_count get_enum add store entry at_object reads_captured reads see
    handed determine_payload_type type_number press step handle apply_keys keys select_all
    housekeeping hide_stale update_duplicates update_duplicate addresses purge expired
    mark_duplicate count_if settle conflict stale_duplicate same_destination is_di_streaming is_set
    state_get state_clr is_di_dst_duplicate remove
listed_at_end = refl

-- The next object would be at 12288.
abbrev next_environment : Environment
next_environment = record environment { now = 111; fresh = some 12288 }

abbrev cleaned_twice : ToolContext
cleaned_twice =
    let hidden : ToolContext = cleaned_by searched.tool (housekeeping 200 searched.tool) in
    cleaned_by hidden (housekeeping 300 hidden)

-- Two runs of the housekeeping, which hide the object as a silent duplicate and then free it, between
-- the search and the use: the use faults.
freed_before_use : after_findcreate 300 frame (some 8192, cleaned_twice) ≡ none
unfolding after_findcreate findcreate find_cached search_cache create insert discovered_item_alloc
    automatic_flags update_addr find_addr sort_key compute_stream_hash cal_hash ntohl ntohs
    network_addr_compare state_set mask position get_count get_enum add store entry at_object
    reads_captured reads see handed determine_payload_type type_number press step handle apply_keys
    keys select_all housekeeping hide_stale update_duplicates update_duplicate addresses purge
    expired mark_duplicate count_if settle conflict stale_duplicate same_destination is_di_streaming
    is_set state_get state_clr is_di_dst_duplicate remove
freed_before_use = refl
