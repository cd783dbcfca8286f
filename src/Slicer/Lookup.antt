-- ===== src/Slicer/Lookup.antt =====
-- What the lookups in the index find.
use ltntstools.Base.{
  ℕ, ◌-◌, ◌≤◌, ◌<◌, ◌≡◌, ◌≢◌, refl, sym, ap, ◌∙◌, ◌⊎◌, inl, inr, ◌&&◌, none, some, List, [], ◌∷◌,
  ◌++◌, arith, leb, ◌==◌, if◌then◌else◌, All, Bool-cases,
}
use mathlib.Core.List.{append_assoc}
use ltntstools.Slicer.{
  Position, lookup_pcr, lookup_pcr_reverse, first_pcr, last_pcr, Extent, refresh,
}

-- An entry of another stream, or one that is earlier.
abbrev pub Earlier : ℕ → ℕ → Position → Type 0
Earlier pid pcr e = (pid ≡ e.pid) → e.pcr < pcr

-- An entry of another stream, or one that is later.
abbrev pub Later : ℕ → ℕ → Position → Type 0
Later pid pcr e = (pid ≡ e.pid) → pcr < e.pcr

-- The lookup finds the first entry of the stream at or after a time: all entries before it are
-- earlier or of other streams, and all of the index are if it finds nothing.
pub lookup_pcr_lem :
    (pid pcr : ℕ) (l : List Position)
    → ((lookup_pcr pid pcr l ≡ none) × All (Earlier pid pcr) l)
      ⊎ ((pre : List Position) × (e : Position) × (post : List Position) × (l ≡ pre ++ e ∷ post)
          × (lookup_pcr pid pcr l ≡ some e)
          × (pid ≡ e.pid)
          × (pcr ≤ e.pcr)
          × All (Earlier pid pcr) pre)
unfolding lookup_pcr
lookup_pcr_lem pid pcr [] = inl (refl, tt)
lookup_pcr_lem pid pcr (e ∷ l) = elim (Bool-cases (pid == e.pid && leb pcr e.pcr)) [
  | inl found ↦
      inr ([], e, l, refl, ground (arith, found), ground (arith, found), ground (arith, found), tt)
  | inr passed ↦
      let earlier : Earlier pid pcr e = λ same. ground (arith, passed, same) in
      elim (lookup_pcr_lem pid pcr l) [
        | inl (nothing, all) ↦ inl (ground (arith, passed, nothing), (earlier, all))
        | inr (pre, f, post, split, found, same, late, all) ↦ inr (
          e ∷ pre,
          f,
          post,
          ap (λ t. e ∷ t) split,
          ground (arith, passed, found),
          same,
          late,
          (earlier, all),
        )
      ]
]

-- The lookup from the end finds the last entry of the stream at or before a time: all entries after
-- it are later or of other streams, and all of the index are if it finds nothing.
pub lookup_pcr_reverse_lem :
    (pid pcr : ℕ) (l : List Position)
    → ((lookup_pcr_reverse pid pcr l ≡ none) × All (Later pid pcr) l)
      ⊎ ((pre : List Position) × (e : Position) × (post : List Position) × (l ≡ pre ++ e ∷ post)
          × (lookup_pcr_reverse pid pcr l ≡ some e)
          × (pid ≡ e.pid)
          × (e.pcr ≤ pcr)
          × All (Later pid pcr) post)
unfolding lookup_pcr_reverse
lookup_pcr_reverse_lem pid pcr [] = inl (refl, tt)
lookup_pcr_reverse_lem pid pcr (e ∷ l) = elim (lookup_pcr_reverse_lem pid pcr l) [
  | inr (pre, f, post, split, found, same, early, all) ↦
      inr
        (e ∷ pre, f, post, ap (λ t. e ∷ t) split, rw (found, lookup_pcr_reverse), same, early, all)
  | inl (nothing, all) ↦ elim (Bool-cases (pid == e.pid && leb e.pcr pcr)) [
    | inl found ↦ inr (
      [],
      e,
      l,
      refl,
      ground (arith, found, nothing),
      ground (arith, found),
      ground (arith, found),
      all,
    )
    | inr passed ↦
        inl (ground (arith, passed, nothing), ((λ same. ground (arith, passed, same)), all))
  ]
]

-- An entry of another stream.
abbrev pub Other : ℕ → Position → Type 0
Other pid e = e.pid ≢ pid

first_pcr_skips :
    (pid old : ℕ) (pre rest : List Position)
    → All (Other pid) pre
    → first_pcr pid old (pre ++ rest) ≡ first_pcr pid old rest
unfolding first_pcr
first_pcr_skips pid old [] rest h = refl
first_pcr_skips pid old (e ∷ pre) rest h = ground (arith, h.0, first_pcr_skips pid old pre rest h.1)

last_pcr_skips :
    (pid old : ℕ) (post : List Position) → All (Other pid) post → last_pcr pid old post ≡ old
unfolding last_pcr
last_pcr_skips pid old [] h = refl
last_pcr_skips pid old (e ∷ post) h = ground (arith, h.0, last_pcr_skips pid old post h.1)

last_pcr_found :
    (pid old : ℕ) (pre post : List Position) (f : Position)
    → f.pid ≡ pid
    → All (Other pid) post
    → last_pcr pid old (pre ++ f ∷ post) ≡ f.pcr
unfolding last_pcr
last_pcr_found pid old [] post f same h = ground (arith, same, last_pcr_skips pid f.pcr post h)
last_pcr_found pid old (e ∷ pre) post f same h =
    last_pcr_found pid (if e.pid == pid then e.pcr else old) pre post f same h

-- The extent of a stream runs from its first entry of the index to its last one; the duration is
-- their difference, or nothing where the first is not below the last.
pub refresh_lem :
    (pid : ℕ) (x : Extent) (pre mid post : List Position) (e f : Position)
    → All (Other pid) pre
    → e.pid ≡ pid
    → f.pid ≡ pid
    → All (Other pid) post
    → ((refresh pid (pre ++ e ∷ (mid ++ f ∷ post)) x).first ≡ e.pcr)
      × ((refresh pid (pre ++ e ∷ (mid ++ f ∷ post)) x).last ≡ f.pcr)
      × ((refresh pid (pre ++ e ∷ (mid ++ f ∷ post)) x).duration ≡ f.pcr - e.pcr)
unfolding refresh first_pcr
refresh_lem pid x pre mid post e f others same_e same_f others' =
    let first : first_pcr pid x.first (pre ++ e ∷ (mid ++ f ∷ post)) ≡ e.pcr =
      first_pcr_skips pid x.first pre _ others ∙ ground (arith, same_e) in
    let last : last_pcr pid x.last (pre ++ e ∷ (mid ++ f ∷ post)) ≡ f.pcr =
      ap (last_pcr pid x.last) (sym (append_assoc pre (e ∷ mid) (f ∷ post)))
      ∙ last_pcr_found pid x.last (pre ++ e ∷ mid) post f same_f others' in
    (first, last, ground (arith, first, last))
