-- ===== src/Base/Io.antt =====
-- Steps over a state `W` that may fail: the state changes also when the step fails.
use mathlib.Core.Path.{◌≡◌, refl, ◌∙◌}
use package.gitway.Base.Outcome.{Result, ok, err}

abbrev pub Io : Type 0 → Type 0 → Type 0 → Type 0
Io W E A = W → Result E A × W

module _ {W E : Type 0} where
  abbrev pub after : {A B : Type 0} → (A → Io W E B) → Result E A → W → Result E B × W
  after f (ok a) w = f a w
  after f (err e) w = (err e, w)

  infixl 5 ◌>>=◌ ◌>>◌
  abbrev pub ◌>>=◌ : {A B : Type 0} → Io W E A → (A → Io W E B) → Io W E B
  ◌>>=◌ m f w = let (r, w') = m w in after f r w'

  abbrev pub ◌>>◌ : {B : Type 0} → Io W E (Unit {0}) → Io W E B → Io W E B
  m >> k = m >>= λ _. k

  abbrev pub give : {A : Type 0} → A → Io W E A
  give a w = (ok a, w)

  abbrev pub fail : {A : Type 0} → E → Io W E A
  fail e w = (err e, w)

  -- A step that leaves the state alone.
  abbrev pub lift : {A : Type 0} → Result E A → Io W E A
  lift r w = (r, w)

  bind_cases :
      {A B : Type 0} (f : A → Io W E B) (r : Result E A) {w : W} {b : B}
      → (after f r w).0 ≡ ok b
      → (a : A) × (r ≡ ok a) × ((f a w).0 ≡ ok b) × ((after f r w).1 ≡ (f a w).1)
  bind_cases f (ok a) h = (a, refl, h, refl)
  bind_cases f (err e) h = cc

  -- A step that succeeds went through the steps it is made of.
  pub bind-eq-ok :
      {A B : Type 0} (m : Io W E A) (f : A → Io W E B) (w : W) {b : B}
      → ((m >>= f) w).0 ≡ ok b
      → (a : A) × ((m w).0 ≡ ok a) × ((f a (m w).1).0 ≡ ok b) × (((m >>= f) w).1 ≡ (f a (m w).1).1)
  bind-eq-ok m f w h = bind_cases f (m w).0 h

  after-cases :
      {A B : Type 0} (P : W → Type 0) (f : A → Io W E B) (r : Result E A) (w : W)
      → ((e : E) → r ≡ err e → P w)
      → ((a : A) → P (f a w).1)
      → P (after f r w).1
  after-cases P f (ok a) w failed next = next a
  after-cases P f (err e) w failed next = failed e refl

  -- What holds after a step that fails, and after what follows it if it does not, holds after both.
  pub bind-state :
      {A B : Type 0} (P : W → Type 0) (m : Io W E A) (f : A → Io W E B) (w : W)
      → ((e : E) → (m w).0 ≡ err e → P (m w).1)
      → ((a : A) → P (f a (m w).1).1)
      → P ((m >>= f) w).1
  bind-state P m f w failed next = after-cases P f (m w).0 (m w).1 failed next

  after-run :
      {A B : Type 0} (P : Result E B × W → Type 0) (f : A → Io W E B) (r : Result E A) (w : W)
      → ((e : E) → r ≡ err e → P (err e, w))
      → ((a : A) → r ≡ ok a → P (f a w))
      → P (after f r w)
  after-run P f (ok a) w failed next = next a refl
  after-run P f (err e) w failed next = failed e refl

  -- What a step that fails ends with, and what follows it if it does not, is what both end with.
  pub bind-run :
      {A B : Type 0} (P : Result E B × W → Type 0) (m : Io W E A) (f : A → Io W E B) (w : W)
      → ((e : E) → (m w).0 ≡ err e → P (err e, (m w).1))
      → ((a : A) → (m w).0 ≡ ok a → P (f a (m w).1))
      → P ((m >>= f) w)
  bind-run P m f w failed next = after-run P f (m w).0 (m w).1 failed next

  -- Two steps that keep a view of the state keep it together.
  pub bind_keeps :
      {A B F : Type 0} (view : W → F) (m : Io W E A) (f : A → Io W E B)
      → ((w : W) → view (m w).1 ≡ view w)
      → ((a : A) (w : W) → view (f a w).1 ≡ view w)
      → (w : W) → view ((m >>= f) w).1 ≡ view w
  bind_keeps view m f first second w =
      bind-state (λ u. view u ≡ view w) m f w (λ e failed. first w)
        (λ a. second a (m w).1 ∙ first w)
