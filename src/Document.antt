-- ===== src/Document.antt =====
-- The scrolling text documents of a stream: struct display_doc_s (src/nic_monitor.h) and the
-- display_doc_* functions (src/nic_monitor_di.c). A line is the list of its bytes. The mutex has
-- no part in a sequential model, and memory that runs out is an argument of `append`.
pub mod Paging
mod Tests
use ltntstools.Base.{
  ℕ, ◌+◌, ◌-◌, Bool, Option, none, some, List, [], ◌∷◌, ◌++◌, ltb, leb, if◌then◌else◌, length, take,
  drop,
}

abbrev pub Line : Type 0
Line = List ℕ

-- `lines` is the array, empty where the pointer is NULL.
pub record Document : Type 0 where
  pub lines : List Line
  pub line_count : ℕ
  pub display_line_from : ℕ
  pub page_size : ℕ
  pub max_page_size : ℕ

-- What the C library answers when `append` asks for memory.
pub record Memory : Type 0 where
  pub realloc_ok : Bool
  pub calloc_ok : Bool

unfoldable pub initialize : Document
initialize = record {
  lines = [];
  line_count = 0;
  display_line_from = 0;
  page_size = 0;
  max_page_size = 10;
}

-- `none` is the result -1. A failed `realloc` loses the array: the pointer is overwritten by NULL.
unfoldable pub append : Memory → Document → Line → Document × Option ℕ
append m d line =
    if ltb 1000 d.line_count
    then (d, none)
    else if m.realloc_ok
    then if m.calloc_ok
      then (
        record d {
          lines = d.lines ++ line ∷ [];
          line_count = d.line_count + 1;
          page_size =
              if ltb (d.line_count + 1) d.max_page_size then d.line_count + 1 else d.page_size;
        },
        some (d.line_count + 1),
      )
      else (d, none)
    else (record d { lines = [] }, none)

-- `displayLineFrom` is an int that is set to 0 when it falls below: subtraction on ℕ stops there.
unfoldable pub page_up : Document → Document
page_up d = record d { display_line_from = d.display_line_from - d.page_size }

unfoldable pub page_down : Document → Document
page_down d = record d {
  display_line_from =
      if leb d.line_count (d.display_line_from + d.page_size + d.page_size)
      then d.line_count - d.page_size - 1
      else d.display_line_from + d.page_size;
}

-- The lines that a redraw puts on the screen: the loop stops at `lineCount`.
unfoldable pub render : Document → List Line
render d = take d.max_page_size (drop d.display_line_from (take d.line_count d.lines))
