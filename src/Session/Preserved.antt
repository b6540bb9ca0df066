-- ===== src/Session/Preserved.antt =====
-- What an action does not break: it holds afterwards, whether the action returns or raises.
use agent_repository.Common.{◌≡◌, refl, sym, subst, Bool, true, false, Option, none, some, arith}
use agent_repository.Session.Monad.{
  Session, Action, Result, Error, ok, err, ⊤, ◌>>=◌, or_raise, when,
}

abbrev pub after : {A B : Type 0} → Result A × Session → (A → Action B) → Result B × Session
after (r, t) f = elim r [ ok a ↦ f a t | err e ↦ (err e, t) ]

-- An action that returned, and what followed it.
pub returned :
    {A B : Type 0} (p : Result A × Session) (f : A → Action B) (b : B)
    → (after p f).0 ≡ ok b
    → (a : A) × (p.0 ≡ ok a) × (after p f ≡ f a p.1)
returned (ok a, t) f b h = (a, refl, refl)
returned (err e, t) f b h = absurd (err_not_ok e b h)
  where
    err_not_ok : {B : Type 0} (e : Error) (b : B) → err e ≡ ok b → ⊥
    err_not_ok e b h = ground (arith, h)

module _ (I : Session → Type 0) where
  abbrev pub Preserves : {A : Type 0} → Action A → Type 0
  Preserves m = (s : Session) → I s → I (m s).1

  outcome :
      {A B : Type 0} (p : Result A × Session) (f : A → Action B)
      → ((a : A) → Preserves (f a))
      → I p.1
      → I (after p f).1
  outcome (ok a, t) f k i = k a t i
  outcome (err e, t) f k i = i

  pub bind-Preserves :
      {A B : Type 0} (m : Action A) (f : A → Action B)
      → Preserves m
      → ((a : A) → Preserves (f a))
      → Preserves (m >>= f)
  bind-Preserves m f h k s i = outcome (m s) f k (h s i)

  pub or_raise-Preserves : {A : Type 0} (o : Option A) (e : Error) → Preserves (or_raise o e)
  or_raise-Preserves none e s i = i
  or_raise-Preserves (some a) e s i = i

  pub when-Preserves : (c : Bool) (m : Action ⊤) → Preserves m → Preserves (when c m)
  when-Preserves true m h s i = h s i
  when-Preserves false m h s i = i

  -- An action that reads.
  pub reads-Preserves : {A : Type 0} (m : Action A) → ((s : Session) → (m s).1 ≡ s) → Preserves m
  reads-Preserves m same s i = subst I (sym (same s)) i
