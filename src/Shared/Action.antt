-- ===== src/Shared/Action.antt =====
-- Asynchronous code as state passing: `W` is the state of everything outside the code that runs,
-- and a promise settles as a value or as a thrown error. What was done before a throw stays done.
use ecommerce_microservice.Prelude.{◌≡◌, refl, ◌⊎◌, inl, inr, arith}
use ecommerce_microservice.Shared.Errors.{Error}

pub data Outcome (A : Type 0) : Type 0 where
  ok : A → Outcome A
  throw : Error → Outcome A

abbrev pub Action : Type 0 → Type 0 → Type 0
Action W A = W → Outcome A × W

module _ {W : Type 0} {A : Type 0} where
  abbrev pub pure : A → Action W A
  pure a w = (ok a, w)

  abbrev pub raise : Error → Action W A
  raise e w = (throw e, w)

  abbrev pub resume : Outcome A × W → (Error → Action W A) → Outcome A × W
  resume (ok a, w) handler = (ok a, w)
  resume (throw e, w) handler = handler e w

  -- `try { m } catch (err) { handler err }`
  abbrev pub try_catch : Action W A → (Error → Action W A) → Action W A
  try_catch m handler w = resume (m w) handler

module _ {W : Type 0} {A : Type 0} {B : Type 0} where
  -- `try { a = m } catch (err) { return h err }` and what follows with `a`.
  abbrev pub on_settled : Outcome A × W → (A → Action W B) → (Error → Action W B) → Outcome B × W
  on_settled (ok a, w) f h = f a w
  on_settled (throw e, w) f h = h e w

module _ {W : Type 0} where
  -- A step that cannot fail: a log line, the clock, a timer.
  abbrev pub effect : (W → W) → Action W (Unit {0})
  effect f w = (ok tt, f w)

infixl 5 ◌>>=◌ ◌>>◌
abbrev pub bind : {W A B : Type 0} → Outcome A × W → (A → Action W B) → Outcome B × W
bind (ok a, w) f = f a w
bind (throw e, w) f = (throw e, w)

abbrev pub ◌>>=◌ : {W A B : Type 0} → Action W A → (A → Action W B) → Action W B
◌>>=◌ m f w = bind (m w) f

abbrev pub ◌>>◌ : {W B : Type 0} → Action W (Unit {0}) → Action W B → Action W B
m >> k = m >>= λ _. k

-- To split on how a call ended and keep the equation.
pub Outcome-cases :
    {W A : Type 0} (p : Outcome A × W)
    → ((a : A) × (p ≡ (ok a, p.1))) ⊎ ((e : Error) × (p ≡ (throw e, p.1)))
Outcome-cases (ok a, w) = inl (a, refl)
Outcome-cases (throw e, w) = inr (e, refl)

-- The same, with the world named.
pub settled :
    {W A : Type 0} (p : Outcome A × W)
    → ((a : A) × (w : W) × (p ≡ (ok a, w))) ⊎ ((e : Error) × (w : W) × (p ≡ (throw e, w)))
settled (ok a, w) = inl (a, w, refl)
settled (throw e, w) = inr (e, w, refl)

-- Inversion of a sequence that ended well: both parts did.
pub bind-eq-ok :
    {W A B : Type 0} (p : Outcome A × W) (f : A → Action W B) {b : B} {w : W}
    → bind p f ≡ (ok b, w)
    → (a : A) × (u : W) × (p ≡ (ok a, u)) × (f a u ≡ (ok b, w))
bind-eq-ok (ok a, u) f h = (a, u, refl, h)
bind-eq-ok (throw e, u) f h = cc

-- Inversion of a sequence that threw: its first part did, or its second after the first.
pub bind-eq-throw :
    {W A B : Type 0} (p : Outcome A × W) (f : A → Action W B) {e : Error} {w : W}
    → bind p f ≡ (throw e, w)
    → (p ≡ (throw e, w)) ⊎ ((a : A) × (u : W) × (p ≡ (ok a, u)) × (f a u ≡ (throw e, w)))
bind-eq-throw (ok a, u) f h = inr (a, u, refl, h)
bind-eq-throw (throw d, u) f h = inl (ground arith)

pub ok-eq :
    {W A : Type 0} {a b : A} {w v : W}
    → ◌≡◌ {A = Outcome A × W} (ok a, w) (ok b, v)
    → (a ≡ b) × (w ≡ v)
ok-eq e = ground arith
