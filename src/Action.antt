-- ===== src/Action.antt =====
-- Methods that change an object and may end early: the state comes back beside the result, and what
-- was written before a stop stays written.
use file_sync_tool.Base.{Bool, true, false, ◌≡◌, refl, ap}

-- Why a method ends early: it returns false; an exception leaves it (std::bad_alloc,
-- std::length_error); it writes past a buffer, which is undefined; or the model's fuel is used up.
pub data Stop : Type 0 where
  refused threw overran out_of_fuel : Stop

pub data Result {ℓ} (A : Type ℓ) : Type ℓ where
  ok : A → Result A
  stop : Stop → Result A

abbrev pub Act : Type 0 → Type 0 → Type 0
Act S A = S → Result A × S

module _ {S A B : Type 0} where
  abbrev pub continue : Result A → (A → Act S B) → Act S B
  continue (ok a) f s = f a s
  continue (stop e) f s = (stop e, s)

  infixl 10 ◌>>=◌ ◌>>◌
  unfoldable pub ◌>>=◌ : Act S A → (A → Act S B) → Act S B
  ◌>>=◌ m f s = let (r, s') = m s in continue r f s'

  abbrev pub ◌>>◌ : Act S A → Act S B → Act S B
  m >> k = m >>= λ _. k

module _ {S A B : Type 0} where
  abbrev pub Split : Act S A → (A → Act S B) → S → B → S → Type 0
  Split m f s b t = (a : A) × (mid : S) × (m s ≡ (ok a, mid)) × (f a mid ≡ (ok b, t))

  continue-ok :
      (r : Result A) (f : A → Act S B) (mid : S) {b : B} {t : S}
      → continue r f mid ≡ (ok b, t)
      → (a : A) × (r ≡ ok a) × (f a mid ≡ (ok b, t))
  continue-ok (ok a) f mid h = (a, refl, h)
  continue-ok (stop e) f mid h = cc

  -- A block that returns has returned from its first step.
  pub bind-ok :
      (m : Act S A) (f : A → Act S B) (s : S) {b : B} {t : S}
      → (m >>= f) s ≡ (ok b, t)
      → Split m f s b t
  unfolding ◌>>=◌
  bind-ok m f s h = let (a, e, k) = continue-ok (m s).0 f (m s).1 h in (a, (m s).1, cc e, k)

  pub bind-eq :
      (m : Act S A) (f : A → Act S B) {s mid : S} {a : A}
      → m s ≡ (ok a, mid)
      → (m >>= f) s ≡ f a mid
  unfolding ◌>>=◌
  bind-eq m f e = ap (λ r. continue r.0 f r.1) e

module _ {S A : Type 0} where
  unfoldable pub pure : A → Act S A
  pure a s = (ok a, s)

  unfoldable pub fail : Stop → Act S A
  fail e s = (stop e, s)

-- `if (!b) return false;`
unfoldable pub require : {S : Type 0} → Bool → Act S (Unit {0})
require true s = (ok tt, s)
require false s = (stop refused, s)
