-- ===== src/Program/Protocol.antt =====
-- Protocols: what a program may ask for, given what was answered before. A program that meets one
-- keeps to it in every run.
use voxel_steward.Base.{◌≡◌, refl, Bool, true, false, if◌then◌else◌, List, [], ◌∷◌}
use voxel_steward.Program.{Program, done, effect, bind, run}

pub record Protocol (Op : Type 0) (Answer : Op → Type 0) (Phase : Type 0) : Type 1 where
  pub allows : Phase → Op → Type 0
  pub next : Phase → (o : Op) → Answer o → Phase

module _ {Op : Type 0} {Answer : Op → Type 0} {Phase : Type 0}
    (protocol : Protocol Op Answer Phase) where
  open protocol use {allows, next}

  -- From this phase on, the program keeps to the protocol, and ends with `Q` of its result.
  pub data Meets {A : Type 0} (Q : A → Phase → Type 0) : Phase → Program Op Answer A → Type 0 where
    ends : {p : Phase} {a : A} → Q a p → Meets Q p (done a)
    asks :
        {p : Phase} {o : Op} {k : Answer o → Program Op Answer A}
        → allows p o
        → ((r : Answer o) → Meets Q (next p o r) (k r))
        → Meets Q p (effect o k)

  -- The log of a run keeps to the protocol, and ends in this phase.
  pub data Accepts : Phase → List ((o : Op) × Answer o) → Phase → Type 0 where
    over : {p : Phase} → Accepts p [] p
    step :
        {p q : Phase} {o : Op} {r : Answer o} {log : List ((o : Op) × Answer o)}
        → allows p o
        → Accepts (next p o r) log q
        → Accepts p ((o, r) ∷ log) q

  module _ {A B : Type 0} {Q : B → Phase → Type 0} where
    pub Meets-bind :
        {f : A → Program Op Answer B} {p : Phase} {m : Program Op Answer A}
        → Meets (λ a q. Meets Q q (f a)) p m
        → Meets Q p (bind m f)
    Meets-bind (ends h) = h
    Meets-bind (asks a h) = asks a λ r. Meets-bind (h r)

  pub Meets-weaken :
      {A : Type 0} {Q R : A → Phase → Type 0} {p : Phase} {m : Program Op Answer A}
      → ((a : A) (q : Phase) → Q a q → R a q)
      → Meets Q p m
      → Meets R p m
  Meets-weaken f (ends h) = ends (f _ _ h)
  Meets-weaken f (asks a h) = asks a λ r. Meets-weaken f (h r)

  pub Meets-if :
      {A : Type 0} {Q : A → Phase → Type 0} {p : Phase} (b : Bool) {m n : Program Op Answer A}
      → (b ≡ true → Meets Q p m)
      → (b ≡ false → Meets Q p n)
      → Meets Q p (if b then m else n)
  Meets-if true f g = f refl
  Meets-if false f g = g refl

  -- Whatever the world answers, the log of the run is accepted and the result is as promised.
  pub run-Accepts :
      {A W : Type 0} {Q : A → Phase → Type 0} {p : Phase} {m : Program Op Answer A}
      (reply : W → (o : Op) → Answer o × W) (w : W)
      → Meets Q p m
      → (q : Phase) × Accepts p (run reply m w).2 q × Q (run reply m w).0 q
  unfolding run
  run-Accepts reply w (ends {p} h) = (p, over, h)
  run-Accepts reply w (asks {o} a h) =
      let (q, accepted, end) = run-Accepts reply (reply w o).1 (h (reply w o).0) in
      (q, step a accepted, end)
