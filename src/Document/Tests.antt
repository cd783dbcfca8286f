-- ===== src/Document/Tests.antt =====
-- The theorems about the documents at one of twelve lines.
use ltntstools.Base.{◌≡◌, ◌-◌, refl, List, [], ◌∷◌, arith, inl, drop}
use ltntstools.Document.{Document, Line, page_down, render}
use ltntstools.Document.Paging.{IsValid, page_downs, page_downs-render}

abbrev twelve_lines : List Line
twelve_lines =
    (1 ∷ [])
    ∷ (2 ∷ [])
    ∷ (3 ∷ [])
    ∷ (4 ∷ [])
    ∷ (5 ∷ [])
    ∷ (6 ∷ [])
    ∷ (7 ∷ [])
    ∷ (8 ∷ [])
    ∷ (9 ∷ [])
    ∷ (10 ∷ [])
    ∷ (11 ∷ [])
    ∷ (12 ∷ [])
    ∷ []

abbrev twelve : Document
twelve = record {
  lines = twelve_lines;
  line_count = 12;
  display_line_from = 0;
  page_size = 9;
  max_page_size = 10;
}

twelve-IsValid : IsValid twelve
twelve-IsValid = record {
  counted = refl;
  bounded = omega arith;
  page_fits = omega arith;
  page_inside = omega arith;
  begins_inside = inl refl;
}

page_downs-render_example : render (page_downs 2 twelve) ≡ drop (12 - 9 - 1) twelve_lines
page_downs-render_example = page_downs-render 2 twelve twelve-IsValid (omega arith) (omega arith)

-- The last ten lines, after one press already.
page_down_once :
    render (page_down twelve)
    ≡ (3 ∷ [])
      ∷ (4 ∷ [])
      ∷ (5 ∷ [])
      ∷ (6 ∷ [])
      ∷ (7 ∷ [])
      ∷ (8 ∷ [])
      ∷ (9 ∷ [])
      ∷ (10 ∷ [])
      ∷ (11 ∷ [])
      ∷ (12 ∷ [])
      ∷ []
unfolding render page_down
page_down_once = refl
