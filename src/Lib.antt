-- ===== src/Lib.antt =====
-- A verification library for ltntstools: its network monitor nic_monitor, and beside it the clock
-- inspector, the PES inspector, the bitrate smoother, the PID filter, the slicer and the bit streams.
--
-- nic_monitor captures UDP packets and keeps one object, a discovered item, for each stream it
-- sees. The capture thread looks the object of a packet up, or creates it; the statistics thread
-- records and forwards its packets; the operator's keys set flags on the selected objects; and
-- the housekeeping hides, marks and frees the objects of silent streams. The files:
--
--   Base           names of the libraries, tests on numbers, lists by native length, bits
--   Document       the scrolling texts of a stream (display_doc_* in src/nic_monitor_di.c);
--                  Document/Paging: invariant and paging
--   Item           struct discovered_item_s and its state word (src/nic_monitor.h);
--                  Item/Flags: the single flags of the word
--   HashIndex      the lookup cache (src/hash_index.c) and its hash; HashIndex/Hash
--   Monitor        the list of objects, the sorted insertion, and discovered_item_findcreate
--                  (src/nic_monitor_di.c); Monitor/Store, Insert, Lookup, Cached, Create,
--                  Consistency, Findcreate: the list against the cache
--   Selection      the keys (discovered_items_select_* in src/nic_monitor_di.c);
--                  Selection/Cursor, Previous, Toggles
--   Housekeeping   discovered_items_housekeeping (src/nic_monitor_di.c);
--                  Housekeeping/Duplicates, Purge, Alike, Consistent
--   Recording      the recording part of _processPackets_IO (src/nic_monitor_pcap.c);
--                  Recording/Lifecycle
--   Forwarding     its forwarding part; Forwarding/Flags, Sessions
--   PcapQueue      the queue of captured packets (pcap_queue_* in src/nic_monitor_pcap.c);
--                  PcapQueue/Pool, Buffers, Reduction, Order
--   Payload        determinePayloadType (src/nic_monitor_pcap.c); Payload/Answer
--   Capture        a captured frame: pcap_update_statistics and pcap_io_process
--                  (src/nic_monitor_pcap.c); Capture/Accepted, Counts
--   Statistics     the watermarks of _processPackets_Stats (src/nic_monitor_pcap.c);
--                  Statistics/Marks, Report, Window
--   Keys           the loop over the keyboard in main (src/nic_monitor.c), on top of Selection;
--                  Keys/Steady, Rows, Session, Quit
--   Options        processArguments (src/nic_monitor.c); Options/Bounds
--   Reporter       the queue of JSON items (src/nic_monitor_json.c) and its thread
--                  (src/nic_monitor.c); Reporter/Attempt, Delivery, Ending
--   Trend          the linear trend (src/kl-lineartrend.c); Trend/Ring, Recent
--   Clocks         the counters, the clocks and the ordered list of src/clock_inspector.c;
--                  Clocks/Separate, Counters, Timing, StreamTime, Ordered
--   PidDrop        the filter of PIDs of a file (src/pid_drop.c); PidDrop/Verdict, Output
--   Smoother       the receiving thread of src/bitrate_smoother.c;
--                  Smoother/Passing, Safety, Relay, Loss
--   Threads        the statistics and capture threads and how main ends them (src/nic_monitor.c);
--                  Threads/Reports, Counters, EndTime, Shutdown
--   PesInspector   emulation prevention bytes (src/pes_inspector.c); PesInspector/Strip, Escape
--   NalStatistics  the throughput of NAL units (src/pes_inspector.c); NalStatistics/Shares, Outside
--   PictureTiming  picture timing messages (src/pes_inspector.c); PictureTiming/Messages
--   System         the search for the object of a frame and its use as two steps, keys and
--                  housekeeping on one list, in any order; System/Invariant
--   Slicer         times and the index of time stamps (src/slicer.c); Slicer/Times, Lookup
--   BitStream      bits (src/klbitstream_readwriter.h); BitStream/Writing, Reading
--
-- How the code corresponds. An object's address is a number, NULL is 0, and a pointer is
-- followed by looking its address up in the list; a pointer to no object is dangling. Functions
-- that can read outside an array or follow a dangling pointer return `none` there, so that a
-- result `some` says that they do not. Of a frame, reads past the bytes that were captured are
-- such reads in pcap_update_statistics. The intrusive list is a list of records. Time, memory
-- and the disk are arguments. The state word is a number, and clearing is taken over 32 bits.
-- The search of the cache runs on as much fuel as the entry has pointers and one more, which is
-- enough, since the enumerator ends after the last pointer. All other loops recurse on a list or
-- on their counter. A loop that waits for the outside, such as that of the keys or of the
-- reporter, recurses on the list of what it finds there, and says so when that list is at its
-- end.
--
-- Not modelled: threads other than by the order of their steps, the libraries libltntools, libpcap,
-- json-c, librdkafka, ffmpeg and ncurses, the other command-line tools around them, and what is printed.
pub mod Base
pub mod Document
pub mod Item
pub mod Keys
pub mod HashIndex
pub mod Monitor
pub mod Selection
pub mod Housekeeping
pub mod Recording
pub mod Forwarding
pub mod PcapQueue
pub mod Payload
pub mod Statistics
pub mod Capture
pub mod System
pub mod Trend
pub mod Reporter
pub mod Options
pub mod Slicer
pub mod BitStream
pub mod Clocks
pub mod PidDrop
pub mod Smoother
pub mod Threads
pub mod PesInspector
pub mod NalStatistics
pub mod PictureTiming
