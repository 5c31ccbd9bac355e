-- ===== src/Program.antt =====
-- Code that waits on others: a program is a value that asks for an operation and goes on with
-- whatever is answered. It says nothing of who answers, so a theorem about it holds for every
-- answer, every order of events between two operations and every failure that an answer can tell.
pub mod Protocol
use voxel_steward.Base.{Result, ok, err, List, [], ◌∷◌}

pub data Program (Op : Type 0) (Answer : Op → Type 0) (A : Type 0) : Type 0 where
  done : A → Program Op Answer A
  effect : (o : Op) → (Answer o → Program Op Answer A) → Program Op Answer A

module _ {Op : Type 0} {Answer : Op → Type 0} where
  abbrev pub bind :
      {A B : Type 0} → Program Op Answer A → (A → Program Op Answer B) → Program Op Answer B
  bind (done a) f = f a
  bind (effect o k) f = effect o λ r. bind (k r) f

  abbrev pub ask : {E : Type 0} → (o : Op) → Program Op Answer (Result E (Answer o))
  ask o = effect o λ r. done (ok r)

  abbrev pub return : {E A : Type 0} → A → Program Op Answer (Result E A)
  return a = done (ok a)

  abbrev pub throw : {E A : Type 0} → E → Program Op Answer (Result E A)
  throw e = done (err e)

  infixl 5 ◌>>=◌ ◌>>◌
  abbrev pub ◌>>=◌ :
      {E A B : Type 0}
      → Program Op Answer (Result E A)
      → (A → Program Op Answer (Result E B))
      → Program Op Answer (Result E B)
  m >>= f = bind m λ r. elim r [ ok a ↦ f a | err e ↦ done (err e) ]

  abbrev pub ◌>>◌ :
      {E A B : Type 0}
      → Program Op Answer (Result E A)
      → Program Op Answer (Result E B)
      → Program Op Answer (Result E B)
  m >> k = m >>= λ _. k

  -- `try { m } catch (e) { handle(e) }`
  abbrev pub catching :
      {E F A : Type 0}
      → Program Op Answer (Result E A)
      → (E → Program Op Answer (Result F A))
      → Program Op Answer (Result F A)
  catching m handle = bind m λ r. elim r [ ok a ↦ done (ok a) | err e ↦ handle e ]

  -- A run against a world that answers: the result, the world after it, and what was asked and
  -- answered on the way.
  unfoldable pub run :
      {W A : Type 0}
      → (W → (o : Op) → Answer o × W)
      → Program Op Answer A
      → W
      → A × W × List ((o : Op) × Answer o)
  run reply (done a) w = (a, w, [])
  run reply (effect o k) w =
      let (r, w') = reply w o in let (a, w'', rest) = run reply (k r) w' in (a, w'', (o, r) ∷ rest)
