-- ===== src/Domain/Float.antt =====
-- Floating-point numbers, which the language gives and the program only uses: a type with its
-- operations and the facts of IEEE arithmetic that the theorems rely on. No law excludes a NaN.
use event_alpha.Prelude.{Bool, true, false, ◌≡◌, ◌≤◌, if◌then◌else◌}
use event_alpha.Prelude.Int.{ℤ, pos, negsuc, pos_part, neg_part, ◌≤ℤ◌, ◌<ℤ◌}

pub record Floats : Type 1 where
  pub F : Type 0
  pub lt : F → F → Bool
  pub le : F → F → Bool
  pub add : F → F → F
  pub sub : F → F → F
  pub mul : F → F → F
  pub div : F → F → F
  pub abs : F → F
  pub tanh : F → F
  -- A literal of two decimal places, by its hundredths: `0.55` is `lit (pos 55)`.
  pub lit : ℤ → F
  -- The facts relied on.
  pub le_of_lt : (a b : F) → lt a b ≡ true → le a b ≡ true
  pub le_trans : (a b c : F) → le a b ≡ true → le b c ≡ true → le a c ≡ true
  pub not-lt_of_le : (a b : F) → le a b ≡ true → lt b a ≡ false
  pub lit_lt :
      (a b : ℤ)
      → pos_part a ≤ 1000
      → neg_part a ≤ 1000
      → pos_part b ≤ 1000
      → neg_part b ≤ 1000
      → a <ℤ b
      → lt (lit a) (lit b) ≡ true
  pub lit_le :
      (a b : ℤ)
      → pos_part a ≤ 1000
      → neg_part a ≤ 1000
      → pos_part b ≤ 1000
      → neg_part b ≤ 1000
      → a ≤ℤ b
      → le (lit a) (lit b) ≡ true
  pub tanh_range :
      (x : F) → (lt (tanh x) (lit (negsuc 99)) ≡ false) × (lt (lit (pos 100)) (tanh x) ≡ false)

module _ (floats : Floats) where
  open floats use {F, lt}

  -- Python's `max(a, b)` and `min(a, b)`: the first argument unless the second is beyond it.
  abbrev pub max_float : F → F → F
  max_float a b = if lt a b then b else a

  abbrev pub min_float : F → F → F
  min_float a b = if lt b a then b else a
