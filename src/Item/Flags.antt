-- ===== src/Item/Flags.antt =====
-- How setting and clearing one flag of the state word shows in the test of any flag.
use native.Mathlib.Nat.{one-le-pow}
use ltntstools.Base.{
  ◌-◌, ◌^◌, ◌<◌, ◌≡◌, ◌∙◌, ap, Bool, not, ◌&&◌, ◌||◌, ◌==◌, arith, testbit, testbit-lt, testbit-and,
  testbit-or, testbit-complement, testbit-pow_self, testbit-pow_ne, and-pow, if◌then◌else◌, inl,
  inr, Bool-cases, ==_iff, ==_refl, sym, true,
}
use ltntstools.Item.{Flag, position, mask, DiscoveredItem, state_set, state_clr, is_set}

pub position-lt : (f : Flag) → position f < 32
unfolding position
position-lt Flag.selected = omega arith
position-lt _ = omega arith

-- Two flags are the same if their positions are.
unfoldable pub same : Flag → Flag → Bool
unfolding position
same f g = position f == position g

-- The test reads the bit of the flag.
is_set-testbit :
    (di : DiscoveredItem) (f : Flag) → is_set di f ≡ not (testbit di.state (position f) == 0)
unfolding is_set
is_set-testbit di f = ground (
  arith,
  and-pow di.state (position f),
  testbit-lt di.state (position f),
  one-le-pow (position f) 2,
)

bit_of_mask : (f g : Flag) → testbit (mask f) (position g) ≡ (if same f g then 1 else 0)
unfolding mask same
bit_of_mask f g = elim (Bool-cases (position f == position g)) [
  | inl e ↦ rw e (
      ap (λ p. testbit (2 ^ position f) p) (omega (arith, (==_iff (position f) (position g)).0 e))
      ∙ testbit-pow_self (position f))
  | inr e ↦ rw e (testbit-pow_ne (position f) (position g) (ground arith))
]

mask-lt : (f : Flag) → mask f < 2 ^ 32
unfolding mask position
mask-lt Flag.selected = omega arith
mask-lt _ = omega arith

-- `state_set` turns on the flag and leaves the others.
pub is_set-state_set :
    (di : DiscoveredItem) (f g : Flag)
    → is_set (state_set di (mask f)) g ≡ (same f g || is_set di g)
unfolding state_set
is_set-state_set di f g =
    rw (is_set-testbit (state_set di (mask f)) g, is_set-testbit di g)
      (ground (
        arith,
        testbit-or di.state (mask f) (position g),
        bit_of_mask f g,
        testbit-lt di.state (position g),
      ))

-- `state_clr` turns off the flag and leaves the others.
pub is_set-state_clr :
    (di : DiscoveredItem) (f g : Flag)
    → is_set (state_clr di (mask f)) g ≡ (not (same f g) && is_set di g)
unfolding state_clr
is_set-state_clr di f g =
    rw (is_set-testbit (state_clr di (mask f)) g, is_set-testbit di g)
      (ground (
        arith,
        testbit-and di.state (2 ^ 32 - 1 - mask f) (position g),
        testbit-complement 32 (mask f) (position g) (mask-lt f) (position-lt g),
        bit_of_mask f g,
        testbit-lt di.state (position g),
      ))

pub same_refl : (f : Flag) → same f f ≡ true
unfolding same
same_refl f = ==_refl (position f)

pub is_set-same : (f g : Flag) (e : DiscoveredItem) → same f g ≡ true → is_set e f ≡ is_set e g
unfolding same
is_set-same f g e h =
    is_set-testbit e f
    ∙ ap (λ p. not (testbit e.state p == 0)) ((==_iff (position f) (position g)).0 h)
    ∙ sym (is_set-testbit e g)
