-- ===== src/Events/Title.antt =====
-- `title_fingerprint` and `jaccard` of services/api/app/events/service.py.
use event_alpha.Prelude.{
  ℕ, ◌+◌, ◌*◌, ◌≤◌, ◌<◌, String, Bool, true, false, not, ◌&&◌, List, [], ◌∷◌, ◌++◌, arith, ltb,
  ◌==◌, length, keep, length-keep-le, if◌then◌else◌,
}
use event_alpha.Contracts.{codes}

-- What Python says of a character, by its code point: char.isalnum(), the code points of
-- char.lower(), and whether str.split() separates at it.
pub record Alphabet : Type 0 where
  pub is_alnum : ℕ → Bool
  pub lower : ℕ → List ℕ
  pub is_space : ℕ → Bool

abbrev pub Token : Type 0
Token = List ℕ

unfoldable pub same_token : Token → Token → Bool
same_token [] [] = true
same_token (c ∷ s) (d ∷ t) = c == d && same_token s t
same_token _ _ = false

-- token in tokens
unfoldable pub has_token : List Token → Token → Bool
unfolding same_token
has_token [] t = false
has_token (s ∷ tokens) t = let later = has_token tokens t in if same_token s t then true else later

module _ (alphabet : Alphabet) where
  open alphabet use {is_alnum, lower, is_space}

  -- "".join(char.lower() if char.isalnum() else " " for char in value)
  unfoldable pub normalized : List ℕ → List ℕ
  normalized [] = []
  normalized (c ∷ cs) = (if is_alnum c then lower c else 32 ∷ []) ++ normalized cs

  abbrev pub emit : Token → List Token
  emit [] = []
  emit (c ∷ token) = (c ∷ token) ∷ []

  -- str.split(), after the characters of a token that has begun
  unfoldable pub split : Token → List ℕ → List Token
  split token [] = emit token
  split token (c ∷ cs) =
      let next = split [] cs in
      let longer = split (token ++ c ∷ []) cs in if is_space c then emit token ++ next else longer

  -- frozenset: each token once
  unfoldable pub frozen : List Token → List Token
  unfolding has_token
  frozen [] = []
  frozen (t ∷ tokens) = let rest = frozen tokens in if has_token rest t then rest else t ∷ rest

  unfoldable pub title_fingerprint : String → List Token
  unfolding normalized split frozen
  title_fingerprint value =
      frozen (keep (λ token. ltb 2 (length token)) (split [] (normalized (codes value))))

-- A quotient of two numbers. The floats that stand for the quotients of numbers below 2 ^ 26 are
-- equal and ordered as the quotients are, and so they are compared with the literal 0.85.
pub record Ratio : Type 0 where
  pub num : ℕ
  pub den : ℕ

abbrev pub ratio_lt : Ratio → Ratio → Bool
ratio_lt a b = ltb (a.num * b.den) (b.num * a.den)

-- len(left & right) / len(left | right) if left or right else 0.0
unfoldable pub jaccard : List Token → List Token → Ratio
jaccard [] [] = record { num = 0; den = 1 }
jaccard left right = record {
  num = length (keep (has_token right) left);
  den = length left + length (keep (λ token. not (has_token left token)) right);
}

pub jaccard-den : (left right : List Token) → 0 < (jaccard left right).den
unfolding jaccard keep has_token
jaccard-den [] [] = omega arith
jaccard-den [] (t ∷ right) = omega arith
jaccard-den (s ∷ left) right = omega arith

-- A similarity is at most 1.
pub jaccard-le-one : (left right : List Token) → (jaccard left right).num ≤ (jaccard left right).den
unfolding jaccard
jaccard-le-one [] [] = omega arith
jaccard-le-one [] (t ∷ right) = omega (arith, length-keep-le (has_token (t ∷ right)) [])
jaccard-le-one (s ∷ left) right = omega (arith, length-keep-le (has_token right) (s ∷ left))
