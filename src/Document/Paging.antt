-- ===== src/Document/Paging.antt =====
-- What the documents keep, and where paging leads.
use ltntstools.Base.{
  ℕ, zero, suc, ◌+◌, ◌-◌, ◌*◌, ◌≤◌, ◌<◌, ◌≡◌, refl, ◌⊎◌, inl, true, [], ◌∷◌, arith, length,
  length-append, drop, take-all, length-drop,
}
use ltntstools.Document.{Line, Document, Memory, initialize, append, page_up, page_down, render}

-- The count is the length of the array, at most 1001; a page is shorter than the screen and no
-- longer than the document; and the screen begins inside the document, if it has a line.
pub record IsValid (d : Document) : Type 0 where
  pub counted : length d.lines ≡ d.line_count
  pub bounded : d.line_count ≤ 1001
  pub page_fits : d.page_size < d.max_page_size
  pub page_inside : d.page_size ≤ d.line_count
  pub begins_inside : (d.display_line_from ≡ 0) ⊎ (d.display_line_from < d.line_count)

-- The three operations keep a document valid if no `realloc` fails.
pub operations-IsValid :
    (d : Document)
    → IsValid d
    → ((m : Memory) (line : Line) → m.realloc_ok ≡ true → IsValid (append m d line).0)
      × IsValid (page_up d)
      × IsValid (page_down d)
unfolding append page_up page_down
operations-IsValid d v = (
  (λ m line ok. record {
    counted = ground (arith, v.counted, ok, length-append d.lines (line ∷ []));
    bounded = ground (arith, v.bounded, ok);
    page_fits = ground (arith, v.page_fits, ok);
    page_inside = ground (arith, v.page_inside, ok);
    begins_inside = ground (arith, v.begins_inside, ok);
  }),
  record {
    counted = v.counted;
    bounded = v.bounded;
    page_fits = v.page_fits;
    page_inside = v.page_inside;
    begins_inside = ground (arith, v.begins_inside);
  },
  record {
    counted = v.counted;
    bounded = v.bounded;
    page_fits = v.page_fits;
    page_inside = v.page_inside;
    begins_inside = ground (arith, v.begins_inside, v.page_inside);
  },
)

pub initialize-IsValid : IsValid initialize
unfolding initialize
initialize-IsValid = record {
  counted = refl;
  bounded = omega arith;
  page_fits = omega arith;
  page_inside = omega arith;
  begins_inside = inl refl;
}

-- The page-down key, pressed `n` times.
unfoldable pub page_downs : ℕ → Document → Document
page_downs zero d = d
page_downs (suc n) d = page_down (page_downs n d)

page_downs_keep :
    (n : ℕ) (d : Document)
    → ((page_downs n d).lines ≡ d.lines)
      × ((page_downs n d).line_count ≡ d.line_count)
      × ((page_downs n d).page_size ≡ d.page_size)
      × ((page_downs n d).max_page_size ≡ d.max_page_size)
unfolding page_downs page_down
page_downs_keep zero d = (refl, refl, refl, refl)
page_downs_keep (suc n) d = page_downs_keep n d

-- Each press moves on by a page, until the last page is reached.
page_downs_reach :
    (n : ℕ) (d : Document)
    → 0 < d.page_size
    → (((page_downs n d).display_line_from ≡ d.display_line_from + n * d.page_size)
        × ((n ≡ 0) ⊎ (d.display_line_from + n * d.page_size + d.page_size < d.line_count)))
      ⊎ ((page_downs n d).display_line_from ≡ d.line_count - d.page_size - 1)
unfolding page_downs page_down
page_downs_reach zero d pos = inl (omega arith, inl refl)
page_downs_reach (suc n) d pos = ground (arith, page_downs_reach n d pos, page_downs_keep n d)

-- In a valid document with a page, pressed as often as it has pages or more often, the page-down key
-- leads to the end from wherever it starts: the screen shows the last page_size + 1 lines, or all
-- lines where there are no more than that, and stays there.
pub page_downs-render :
    (n : ℕ) (d : Document)
    → IsValid d
    → 0 < d.page_size
    → d.line_count ≤ n * d.page_size
    → render (page_downs n d) ≡ drop (d.line_count - d.page_size - 1) d.lines
unfolding render
page_downs-render n d v pos enough =
    let (lines, count, _, screen) = page_downs_keep n d in
    let last : (page_downs n d).display_line_from ≡ d.line_count - d.page_size - 1 =
      ground (arith, page_downs_reach n d pos, v.page_inside) in
    rw (lines, count, screen, last, take-all d.line_count d.lines (omega (arith, v.counted)))
      (take-all d.max_page_size _ (
        omega (
          arith,
          v.counted,
          v.page_fits,
          v.page_inside,
          length-drop (d.line_count - d.page_size - 1) d.lines,
        )))
