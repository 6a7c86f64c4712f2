-- ===== src/Exec.antt =====
-- Methods that change the world and may raise: what was changed before a raise stays changed.
use mathlib.Core.Path.{◌≡◌, subst}
use event_alpha.Errors.{Exc, Result, ok, err}

abbrev pub Exec : Type 0 → Type 0 → Type 0
Exec S A = S → Result A × S

module _ {S A B : Type 0} where
  abbrev pub after : Result A → (A → Exec S B) → Exec S B
  after (err e) f s = (err e, s)
  after (ok a) f s = f a s

  infixl 5 ◌>>=◌ ◌>>◌
  abbrev pub ◌>>=◌ : Exec S A → (A → Exec S B) → Exec S B
  ◌>>=◌ m f s = let (r, s') = m s in after r f s'

  abbrev pub ◌>>◌ : Exec S A → Exec S B → Exec S B
  ◌>>◌ m n s = let (r, s') = m s in after r (λ _. n) s'

module _ {S A : Type 0} where
  abbrev pub pure : A → Exec S A
  pure a s = (ok a, s)

  abbrev pub raise : Exc → Exec S A
  raise e s = (err e, s)

  -- try: m except error: handler(error)
  abbrev pub handled : Result A → (Exc → Exec S A) → Exec S A
  handled (ok a) h s = (ok a, s)
  handled (err e) h s = h e s

  abbrev pub catch : Exec S A → (Exc → Exec S A) → Exec S A
  catch m h s = let (r, s') = m s in handled r h s'

-- What holds of the state, and of every state that a continuation reaches, holds after both.
pub after_both :
    {S A B : Type 0} (R : S → S → Type 0) (r : Result A) (f : A → Exec S B) (u s : S)
    → R u s
    → ((a : A) → R u (f a s).1)
    → R u (after r f s).1
after_both R (ok a) f u s h k = k a
after_both R (err e) f u s h k = h

-- What holds of the value and the state where a call returns.
abbrev pub Returns : {S A : Type 0} → (A → S → Type 0) → Result A × S → Type 0
Returns P (err e, s) = Unit
Returns P (ok a, s) = P a s

pub after-Returns :
    {S A B : Type 0} (P : A → S → Type 0) (Q : B → S → Type 0) (r : Result A) (f : A → Exec S B)
    (s : S)
    → Returns P (r, s)
    → ((a : A) (t : S) → P a t → Returns Q (f a t))
    → Returns Q (after r f s)
after-Returns P Q (err e) f s h k = tt
after-Returns P Q (ok a) f s h k = k a s h

pub state-Returns :
    {S A : Type 0} (P : S → Type 0) (r : Result A) (s : S) → P s → Returns (λ _ t. P t) (r, s)
state-Returns P (err e) s h = tt
state-Returns P (ok a) s h = h

pub Returns-ok :
    {S A : Type 0} (P : A → S → Type 0) (out : Result A × S) (a : A) (s : S)
    → Returns P out
    → out ≡ (ok a, s)
    → P a s
Returns-ok P out a s h e = subst (Returns P) e h

pub Returns-map :
    {S A : Type 0} (P Q : A → S → Type 0) (out : Result A × S)
    → Returns P out
    → ((a : A) (s : S) → P a s → Q a s)
    → Returns Q out
Returns-map P Q (err e, s) h k = tt
Returns-map P Q (ok a, s) h k = k a s h

pub Returns-both :
    {S A : Type 0} (P Q : A → S → Type 0) (out : Result A × S)
    → Returns P out
    → Returns Q out
    → Returns (λ a s. P a s × Q a s) out
Returns-both P Q (err e, s) h k = tt
Returns-both P Q (ok a, s) h k = (h, k)
