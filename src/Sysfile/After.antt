-- ===== src/Sysfile/After.antt =====
-- assignment-3/sysfile.c: what holds after code that has not panicked.
use cs_1217_operating_system.Base.{Bool, true, false, Option, none, some, if◌then◌else◌}
use cs_1217_operating_system.Sysfile.{World, Action, go_on}

module _ {A : Type 0} where
  abbrev pub After : (A → World → Type 0) → Option (A × World) → Type 0
  After P none = Unit
  After P (some (a, w)) = P a w

  pub After-if :
      (P : A → World → Type 0) (t : Bool) (a b : Option (A × World))
      → After P a
      → After P b
      → After P (if t then a else b)
  After-if P true a b ha hb = ha
  After-if P false a b ha hb = hb

pub After-then :
    {A B : Type 0} (P : A → World → Type 0) (Q : B → World → Type 0) (r : Option (A × World))
    (k : A → Action B)
    → After P r
    → ((a : A) (w : World) → P a w → After Q (k a w))
    → After Q (go_on r k)
After-then P Q none k h next = tt
After-then P Q (some (a, w)) k h next = next a w h
