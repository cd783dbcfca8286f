-- ===== src/Statistics/Marks.antt =====
-- The low and the high watermark of the intervals between packets.
use ltntstools.Base.{
  ◌≡◌, refl, sym, ◌∙◌, ap, ap₂, subst, ◌⊎◌, inl, inr, ℕ, Bool, true, false, List, [], ◌∷◌, arith,
  All, ◌==◌, if◌then◌else◌, Bool-cases,
}
use ltntstools.Statistics.{
  Timeval, ℤ, pos, negsuc, leb_ℤ, Library, Watermarks, Packet, update, updates, to_int, residue,
  fits_int,
}

-- `a <= b` on signed numbers.
infix 50 ◌≤ℤ◌
abbrev pub ◌≤ℤ◌ : ℤ → ℤ → Type 0
a ≤ℤ b = leb_ℤ a b ≡ true

pub ≤ℤ_refl : (a : ℤ) → a ≤ℤ a
≤ℤ_refl (pos n) = ground arith
≤ℤ_refl (negsuc n) = ground arith

pub ≤ℤ_trans : (a b c : ℤ) → a ≤ℤ b → b ≤ℤ c → a ≤ℤ c
≤ℤ_trans (pos a) (pos b) (pos c) p q = ground arith
≤ℤ_trans (negsuc a) (pos b) (pos c) p q = refl
≤ℤ_trans (negsuc a) (negsuc b) (pos c) p q = refl
≤ℤ_trans (negsuc a) (negsuc b) (negsuc c) p q = ground arith
≤ℤ_trans _ _ _ p q = ground arith

pub ≤ℤ_total : (a b : ℤ) → leb_ℤ a b ≡ false → b ≤ℤ a
≤ℤ_total (pos a) (pos b) p = ground arith
≤ℤ_total (negsuc a) (negsuc b) p = ground arith
≤ℤ_total _ _ p = ground arith

abbrev pub Among : ℤ → List ℤ → Type 0
Among x [] = ⊥
Among x (y ∷ ys) = (x ≡ y) ⊎ Among x ys

-- The greatest of a number and a list, as a loop keeps it, and the least.
unfoldable pub highest : ℤ → List ℤ → ℤ
highest h [] = h
highest h (x ∷ xs) = highest (if leb_ℤ h x then x else h) xs

unfoldable pub lowest : ℤ → List ℤ → ℤ
lowest l [] = l
lowest l (x ∷ xs) = lowest (if leb_ℤ x l then x else l) xs

-- At least all of them, and one of them.
abbrev pub IsHighest : ℤ → ℤ → List ℤ → Type 0
IsHighest m h xs = h ≤ℤ m × All (λ x. x ≤ℤ m) xs × ((m ≡ h) ⊎ Among m xs)

abbrev pub IsLowest : ℤ → ℤ → List ℤ → Type 0
IsLowest m l xs = m ≤ℤ l × All (λ x. m ≤ℤ x) xs × ((m ≡ l) ⊎ Among m xs)

highest_with :
    (b : Bool) (h x : ℤ) (xs : List ℤ)
    → leb_ℤ h x ≡ b
    → ((k : ℤ) → IsHighest (highest k xs) k xs)
    → IsHighest (highest (if b then x else h) xs) h (x ∷ xs)
highest_with true h x xs e ih =
    let (above, all, one) = ih x in (≤ℤ_trans h x (highest x xs) e above, (above, all), inr one)
highest_with false h x xs e ih =
    let (above, all, one) = ih h in
    (
      above,
      (≤ℤ_trans x h (highest h xs) (≤ℤ_total h x e) above, all),
      elim one [ inl same ↦ inl same | inr among ↦ inr (inr among) ],
    )

pub highest-IsHighest : (h : ℤ) (xs : List ℤ) → IsHighest (highest h xs) h xs
unfolding highest
highest-IsHighest h [] = (≤ℤ_refl h, tt, inl refl)
highest-IsHighest h (x ∷ xs) = highest_with (leb_ℤ h x) h x xs refl (λ k. highest-IsHighest k xs)

lowest_with :
    (b : Bool) (l x : ℤ) (xs : List ℤ)
    → leb_ℤ x l ≡ b
    → ((k : ℤ) → IsLowest (lowest k xs) k xs)
    → IsLowest (lowest (if b then x else l) xs) l (x ∷ xs)
lowest_with true l x xs e ih =
    let (below, all, one) = ih x in (≤ℤ_trans (lowest x xs) x l below e, (below, all), inr one)
lowest_with false l x xs e ih =
    let (below, all, one) = ih l in
    (
      below,
      (≤ℤ_trans (lowest l xs) l x below (≤ℤ_total x l e), all),
      elim one [ inl same ↦ inl same | inr among ↦ inr (inr among) ],
    )

pub lowest-IsLowest : (l : ℤ) (xs : List ℤ) → IsLowest (lowest l xs) l xs
unfolding lowest
lowest-IsLowest l [] = (≤ℤ_refl l, tt, inl refl)
lowest-IsLowest l (x ∷ xs) = lowest_with (leb_ℤ x l) l x xs refl (λ k. lowest-IsLowest k xs)

pub to_int_lem : (z : ℤ) → fits_int z ≡ true → to_int z ≡ z
unfolding to_int residue
to_int_lem (pos a) fits = ground arith
to_int_lem (negsuc a) fits = ground arith

module _ (lib : Library) (interval : ℕ) where
  -- The intervals between packets, from the time of the last one on. A time whose seconds are 0
  -- stands for no packet.
  unfoldable pub intervals : Timeval → List Packet → List ℤ
  intervals last [] = []
  intervals last (p ∷ ps) =
      let rest = intervals p.ts ps in
      if last.tv_sec == 0 then rest else lib.subtract_us p.ts last ∷ rest

  -- What is stored of them.
  unfoldable pub stored_intervals : Timeval → List Packet → List ℤ
  stored_intervals last [] = []
  stored_intervals last (p ∷ ps) =
      let rest = stored_intervals p.ts ps in
      if last.tv_sec == 0 then rest else to_int (lib.subtract_us p.ts last) ∷ rest

  -- Intervals that an int holds, of less than 2147 seconds, are stored as they are.
  pub stored_lem :
      (last : Timeval) (ps : List Packet)
      → All (λ x. fits_int x ≡ true) (intervals last ps)
      → stored_intervals last ps ≡ intervals last ps
  unfolding stored_intervals intervals
  stored_lem last [] fit = refl
  stored_lem last (p ∷ ps) fit = elim (Bool-cases (last.tv_sec == 0)) [
    | inl first ↦
        let later : All (λ x. fits_int x ≡ true) (intervals p.ts ps) =
          subst (All (λ x. fits_int x ≡ true))
            (let e : (if last.tv_sec == 0
                    then intervals p.ts ps
                    else lib.subtract_us p.ts last ∷ intervals p.ts ps)
                  ≡ intervals p.ts ps =
                rw first refl in
              e)
            fit in
        rw first (stored_lem p.ts ps later)
    | inr next ↦
        let all : All (λ x. fits_int x ≡ true) (lib.subtract_us p.ts last ∷ intervals p.ts ps) =
          subst (All (λ x. fits_int x ≡ true))
            (let e : (if last.tv_sec == 0
                    then intervals p.ts ps
                    else lib.subtract_us p.ts last ∷ intervals p.ts ps)
                  ≡ lib.subtract_us p.ts last ∷ intervals p.ts ps =
                rw next refl in
              e)
            fit in
        rw next (ap₂ ◌∷◌ (to_int_lem (lib.subtract_us p.ts last) all.0) (stored_lem p.ts ps all.1))
  ]

  -- One packet, on the fields of the watermarks.
  pub measured :
      (p : Packet) (w : Watermarks lib.History)
      → ((update lib interval p w).iat_last_frame ≡ p.ts)
        × ((update lib interval p w).iat_hwm_us
            ≡ highest w.iat_hwm_us (stored_intervals w.iat_last_frame (p ∷ [])))
        × ((update lib interval p w).iat_lwm_us
            ≡ lowest w.iat_lwm_us (stored_intervals w.iat_last_frame (p ∷ [])))
  unfolding update stored_intervals highest lowest
  measured p w = (refl, ground arith, ground arith)

  pub highest_next :
      (h : ℤ) (last : Timeval) (p : Packet) (ps : List Packet)
      → highest h (stored_intervals last (p ∷ ps))
        ≡ highest (highest h (stored_intervals last (p ∷ []))) (stored_intervals p.ts ps)
  unfolding stored_intervals highest
  highest_next h last p ps = elim (Bool-cases (last.tv_sec == 0)) [
    | inl e ↦ rw (e, stored_intervals) refl
    | inr e ↦ rw (e, stored_intervals) refl
  ]

  lowest_next :
      (l : ℤ) (last : Timeval) (p : Packet) (ps : List Packet)
      → lowest l (stored_intervals last (p ∷ ps))
        ≡ lowest (lowest l (stored_intervals last (p ∷ []))) (stored_intervals p.ts ps)
  unfolding stored_intervals lowest
  lowest_next l last p ps = elim (Bool-cases (last.tv_sec == 0)) [
    | inl e ↦ rw (e, stored_intervals) refl
    | inr e ↦ rw (e, stored_intervals) refl
  ]

  pub marks_lem :
      (ps : List Packet) (w : Watermarks lib.History)
      → ((updates lib interval ps w).iat_hwm_us
          ≡ highest w.iat_hwm_us (stored_intervals w.iat_last_frame ps))
        × ((updates lib interval ps w).iat_lwm_us
            ≡ lowest w.iat_lwm_us (stored_intervals w.iat_last_frame ps))
  unfolding updates
  marks_lem [] w = unfold stored_intervals highest lowest in (refl, refl)
  marks_lem (p ∷ ps) w =
      let next : Watermarks lib.History = update lib interval p w in
      let (frame, high, low) = measured p w in
      let (highs, lows) = marks_lem ps next in
      (
        highs
            ∙ ap₂ (λ h t. highest h (stored_intervals t ps)) high frame
            ∙ sym (highest_next w.iat_hwm_us w.iat_last_frame p ps),
        lows
            ∙ ap₂ (λ l t. lowest l (stored_intervals t ps)) low frame
            ∙ sym (lowest_next w.iat_lwm_us w.iat_last_frame p ps),
      )

  -- After any packets whose intervals an int holds, of less than 2147 seconds: the high watermark is at
  -- least what it was and at least every interval between two of them, and is one of these; the low
  -- watermark is at most these, and is one of them. Before the first packet that has a time, whose
  -- seconds are not 0, there is no interval.
  pub updates-marks :
      (ps : List Packet) (w : Watermarks lib.History)
      → All (λ x. fits_int x ≡ true) (intervals w.iat_last_frame ps)
      → IsHighest
          (updates lib interval ps w).iat_hwm_us
          w.iat_hwm_us
          (intervals w.iat_last_frame ps)
        × IsLowest
            (updates lib interval ps w).iat_lwm_us
            w.iat_lwm_us
            (intervals w.iat_last_frame ps)
  updates-marks ps w fit =
      let (high, low) = marks_lem ps w in
      let same = stored_lem w.iat_last_frame ps fit in
      (
        subst (λ m. IsHighest m w.iat_hwm_us (intervals w.iat_last_frame ps))
            (sym (high ∙ ap (highest w.iat_hwm_us) same))
            (highest-IsHighest w.iat_hwm_us (intervals w.iat_last_frame ps)),
        subst (λ m. IsLowest m w.iat_lwm_us (intervals w.iat_last_frame ps))
            (sym (low ∙ ap (lowest w.iat_lwm_us) same))
            (lowest-IsLowest w.iat_lwm_us (intervals w.iat_last_frame ps)),
      )
