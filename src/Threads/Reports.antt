-- ===== src/Threads/Reports.antt =====
-- How often the statistics thread writes its reports.
use ltntstools.Base.{
  ◌≡◌, refl, ◌∙◌, inl, inr, ℕ, ◌+◌, ◌≤◌, ◌<◌, Bool, true, false, Option, none, some, ap, List, [],
  ◌∷◌, ◌++◌, arith, leb, Bool-cases, leb→le, ◌==◌,
}
use ltntstools.Threads.{
  Timer, Stats, used, is_due, fire, plan, stats_start, stats_round, stats_rounds,
}

used-used : (b : Option Bool) → used (used b) ≡ used b
used-used none = refl
used-used (some b) = refl

-- Before the report at `t` with the banner `b`, from the latest: each an interval or more after the
-- one before, and only the first with the banner as it was at the start.
abbrev pub Past : ℕ → Option Bool → ℕ → Option Bool → List (ℕ × Option Bool) → Type 0
Past i first t b [] = b ≡ first
Past i first t b ((t', b') ∷ rest) = (b ≡ used first) × (t' + i ≤ t) × Past i first t' b' rest

abbrev pub PacedBy : ℕ → Option Bool → ℕ → Option Bool → List (ℕ × Option Bool) → Type 0
PacedBy i first next banner [] = banner ≡ first
PacedBy i first next banner ((t, b) ∷ rest) =
    (next ≡ t + i) × (banner ≡ used first) × Past i first t b rest

abbrev pub IsPaced : ℕ → Option Bool → Timer → Type 0
IsPaced i first t = PacedBy i first t.next_write_time t.banner t.written

PacedBy-Past :
    (i now next : ℕ) (first banner : Option Bool) (written : List (ℕ × Option Bool))
    → next ≤ now
    → PacedBy i first next banner written
    → Past i first now banner written × (used banner ≡ used first)
PacedBy-Past i now next first banner [] due paced = (paced, ap used paced)
PacedBy-Past i now next first banner ((t, b) ∷ rest) due (planned, plain, before) =
    ((plain, omega (arith, planned, due), before), ap used plain ∙ used-used first)

fire-IsPaced :
    (first : Option Bool) (enabled : Bool) (i now : ℕ) (t : Timer)
    → IsPaced i first t
    → IsPaced i first (fire enabled i now t)
unfolding fire is_due
fire-IsPaced first false i now t paced = paced
fire-IsPaced first true i now t paced = elim (Bool-cases (leb t.next_write_time now)) [
  | inl due ↦
      let (before, spent) =
        PacedBy-Past i now t.next_write_time first t.banner t.written
          (leb→le t.next_write_time now due) paced in
      rw due (refl, spent, before)
  | inr early ↦ rw early paced
]

fire-lt : (i now : ℕ) (t : Timer) → 0 < i → now < (fire true i now t).next_write_time
unfolding fire is_due
fire-lt i now t pos = ground arith

plan-IsPaced :
    (start : Option Bool) (i now : ℕ) (t : Timer)
    → t.written ≡ []
    → t.banner ≡ start
    → IsPaced i start (plan i now t)
unfolding plan
plan-IsPaced start i now t none_yet first = elim (Bool-cases (t.next_write_time == 0)) [
  | inl new ↦ rw (new, none_yet) first
  | inr old ↦ rw (old, none_yet) first
]

-- All three.
abbrev pub ArePaced : Stats → Type 0
ArePaced s =
    IsPaced s.file_write_interval (some true) s.file
    × IsPaced s.file_write_interval (some true) s.detailed
    × IsPaced s.json_write_interval none s.json

stats_round-ArePaced : (s : Stats) (r : Bool × ℕ) → ArePaced s → ArePaced (stats_round s r)
unfolding stats_round
stats_round-ArePaced s (served, now) (f, d, j) = (
  fire-IsPaced (some true) s.file_prefix s.file_write_interval now s.file f,
  fire-IsPaced (some true) s.detailed_file_prefix s.file_write_interval now s.detailed d,
  fire-IsPaced none true s.json_write_interval now s.json j,
)

abbrev SameOptions : Stats → Stats → Type 0
SameOptions s after =
    (after.file_prefix ≡ s.file_prefix)
    × (after.detailed_file_prefix ≡ s.detailed_file_prefix)
    × (after.file_write_interval ≡ s.file_write_interval)
    × (after.json_write_interval ≡ s.json_write_interval)

stats_rounds-ArePaced :
    (rounds : List (Bool × ℕ)) (s : Stats)
    → ArePaced s
    → ArePaced (stats_rounds s rounds) × SameOptions s (stats_rounds s rounds)
unfolding stats_rounds stats_round
stats_rounds-ArePaced [] s paced = (paced, (refl, refl, refl, refl))
stats_rounds-ArePaced (r ∷ rest) s paced =
    stats_rounds-ArePaced rest (stats_round s r) (stats_round-ArePaced s r paced)

stats_rounds-append :
    (rounds : List (Bool × ℕ)) (s : Stats) (r : Bool × ℕ)
    → stats_rounds s (rounds ++ r ∷ []) ≡ stats_round (stats_rounds s rounds) r
unfolding stats_rounds
stats_rounds-append [] s r = refl
stats_rounds-append (x ∷ rounds) s r = stats_rounds-append rounds (stats_round s x) r

-- None of the reports is overdue.
abbrev pub AreAhead : Stats → ℕ → Type 0
AreAhead s now =
    (now < s.file.next_write_time)
    × (now < s.detailed.next_write_time)
    × (now < s.json.next_write_time)

stats_round-AreAhead :
    (s : Stats) (served : Bool) (now : ℕ)
    → s.file_prefix ≡ true
    → s.detailed_file_prefix ≡ true
    → 0 < s.file_write_interval
    → 0 < s.json_write_interval
    → AreAhead (stats_round s (served, now)) now
unfolding stats_round
stats_round-AreAhead s served now file detailed fi ji = (
  rw file (fire-lt s.file_write_interval now s.file fi),
  rw detailed (fire-lt s.file_write_interval now s.detailed fi),
  fire-lt s.json_write_interval now s.json ji,
)

-- With both file reports asked for and intervals of a second or more, from a start with nothing
-- written: after any rounds and one more at `now`, whatever the clock does in between, two reports of
-- a kind are an interval or more apart, only the first of the file reports has the banner, and each next report
-- is due after `now`, one interval after the latest if there is one.
pub reports_paced :
    (s : Stats) (begin now : ℕ) (served : Bool) (rounds : List (Bool × ℕ))
    → s.file_prefix ≡ true
    → s.detailed_file_prefix ≡ true
    → 0 < s.file_write_interval
    → 0 < s.json_write_interval
    → (s.file.written ≡ []) × (s.file.banner ≡ some true)
    → (s.detailed.written ≡ []) × (s.detailed.banner ≡ some true)
    → (s.json.written ≡ []) × (s.json.banner ≡ none)
    → ArePaced (stats_rounds (stats_start begin s) (rounds ++ (served, now) ∷ []))
      × AreAhead (stats_rounds (stats_start begin s) (rounds ++ (served, now) ∷ [])) now
unfolding stats_start
reports_paced s begin now served rounds file detailed fi ji (fw, fb) (dw, db) (jw, jb) =
    let started = stats_start begin s in
    let paced : ArePaced started = (
      plan-IsPaced (some true) s.file_write_interval begin s.file fw fb,
      plan-IsPaced (some true) s.file_write_interval begin s.detailed dw db,
      rw jw jb,
    ) in
    let (before, (f, d, fi_same, ji_same)) = stats_rounds-ArePaced rounds started paced in
    let last = stats_rounds started rounds in
    rw (stats_rounds-append rounds started (served, now)) (
      stats_round-ArePaced last (served, now) before,
      stats_round-AreAhead last served now (f ∙ file) (d ∙ detailed) (omega (arith, fi_same, fi))
          (omega (arith, ji_same, ji)),
    )
