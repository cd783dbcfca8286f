-- ===== src/Monitor/Samples.antt =====
-- A list of one stream with its cache, for the tests, and what a call finds.
use ltntstools.Base.{ℕ, ◌≡◌, refl, inr, ◌<◌, true, false, some, [], ◌∷◌, arith, ◌==◌, if◌then◌else◌}
use ltntstools.HashIndex.{compute_stream_hash, cal_hash, contains}
use ltntstools.Item.{ntohl, ntohs}
use ltntstools.Item.Samples.{sample, first_headers, second_headers}
use ltntstools.Monitor.{ToolContext, Environment}
use ltntstools.Monitor.Store.{stream_of}
use ltntstools.Monitor.Consistency.{IsConsistent}
use ltntstools.Monitor.Findcreate.{IsValid}
use ltntstools.Monitor.Create.{IsFresh}

first_hash : compute_stream_hash first_headers ≡ 24
unfolding compute_stream_hash cal_hash ntohl ntohs
first_hash = refl

abbrev pub one_stream : ToolContext
one_stream = record {
  list = sample 4096 first_headers 24 0 100 ∷ [];
  hash_index = record { slots = 65535; arr = λ k. if k == 24 then 4096 ∷ [] else [] };
  cache_hit = 0;
  cache_miss = 1;
  automatically_record_streams = true;
  automatically_json_probe_streams = false;
  last_list_housekeeping = 0;
}

one_pointer : (k a : ℕ) → contains (one_stream.hash_index.arr k) a ≡ true → (24 ≡ k) × (4096 ≡ a)
unfolding contains
one_pointer k a among = ground (arith, among)

pub one_stream-IsConsistent : IsConsistent one_stream.list one_stream.hash_index
unfolding stream_of contains
one_stream-IsConsistent = record {
  slots = refl;
  distinct = (refl, tt);
  hashed = λ a s at. ground (arith, first_hash, at);
  inside = λ a s at. ground (arith, at);
  indexed = λ a s at. ground (arith, at);
  not_null = λ a s at. ground (arith, at);
  not_dead = λ a s at. ground (arith, at);
  followed = λ k a among.
      let (key, here) = one_pointer k a among in
      inr ((first_headers, 24), ground (arith, here), key);
  unique = λ a b s t at bt same. ground (arith, at, bt);
}

pub one_stream-IsValid : IsValid one_stream
one_stream-IsValid = record { sorted = (omega arith, tt); consistent = one_stream-IsConsistent }

abbrev pub environment : Environment
environment = record {
  now = 103;
  fresh = some 8192;
  memory = record { realloc_ok = true; calloc_ok = true };
  logging_begins = 76 ∷ [];
}

pub environment-IsFresh : IsFresh environment one_stream
unfolding stream_of
environment-IsFresh a e = (ground (arith, e), ground (arith, e), ground (arith, e))

pub second_inside : compute_stream_hash second_headers < 65535
unfolding compute_stream_hash cal_hash ntohl ntohs
second_inside = omega arith
