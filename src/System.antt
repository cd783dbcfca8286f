-- ===== src/System.antt =====
-- The threads of nic_monitor on the one list of objects: the capture thread (pcap_update_statistics),
-- a key (the loop of main), and the housekeeping, in any order. Each of them holds the lock of the
-- context while it works on the list, but the capture thread uses the object of a frame after the
-- search for it has released the lock.
pub mod Invariant
mod Tests
use ltntstools.Base.{ℕ, ◌<◌, ◌≡◌, Option, none, some, true, List, [], ◌∷◌}
use ltntstools.Document.{Line}
use ltntstools.HashIndex.{compute_stream_hash}
use ltntstools.Monitor.{ToolContext, Environment, findcreate}
use ltntstools.Monitor.Create.{IsFresh}
use ltntstools.Housekeeping.{housekeeping}
use ltntstools.Keys.{Context, Reading, Place, step}
use ltntstools.Capture.{Frame, Handed, is_udp_frame, at_object}

-- The list stands in `tool`; the loop of the keys has its place and its other fields; and the capture
-- thread, between the search and the use, has the address of an object and the frame.
pub record System : Type 0 where
  pub tool : ToolContext
  pub pending : Option (ℕ × Frame)
  pub place : Place
  pub context : Context

abbrev pub pend : Option ℕ → Frame → Option (ℕ × Frame)
pend none f = none
pend (some a) f = some (a, f)

module _ (stamp : ℕ → Line) (message : Line) where
  -- A reading of the keyboard, on the list of the tool.
  unfoldable pub press : Reading → System → System
  press r s =
      let (p, x) = step stamp message s.place r (record s.context { items = s.tool.list }) in
      record {
        tool = record s.tool { list = x.items };
        pending = s.pending;
        place = p;
        context = x;
      }

  unfoldable pub presses : List Reading → System → System
  unfolding press
  presses [] s = s
  presses (r ∷ rest) s = presses rest (press r s)

  -- What can happen. The use of an object is one step, though the thread does not hold the lock in it:
  -- interleavings within it are left out. Memory that `calloc` hands out is not in use, and the stream of a frame has an
  -- entry in the table of the cache. A use that faults, of an object that was freed since the search
  -- or of a frame that was not captured whole, is no step.
  pub data Step : System → System → Type 0 where
    found :
        (s : System) (env : Environment) (f : Frame) (r : Option ℕ) (tool : ToolContext)
        → s.pending ≡ none
        → is_udp_frame f ≡ true
        → IsFresh env s.tool
        → compute_stream_hash f.headers < 65535
        → findcreate env s.tool f.headers ≡ some (r, tool)
        → Step s (record s { tool = tool; pending = pend r f })
    used :
        (s : System) (now a : ℕ) (f : Frame) (tool : ToolContext) (handed : Option (ℕ × Handed))
        → s.pending ≡ some (a, f)
        → at_object now f a s.tool ≡ some (tool, handed)
        → Step s (record s { tool = tool; pending = none })
    pressed : (s : System) (r : Reading) → Step s (press r s)
    cleaned :
        (s : System) (now : ℕ) (tool : ToolContext)
        → housekeeping now s.tool ≡ some tool
        → Step s (record s { tool = tool })

  pub data Reach (s : System) : System → Type 0 where
    here : Reach s s
    next : {t u : System} → Reach s t → Step t u → Reach s u
