-- ===== src/Tests/Presence.antt =====
-- Driver 7 has ride 1 by its guard and driver 8 none, while Redis names none for 7 and ride 9 for 8.
use rcab.Base.{◌==◌, refl, none, some, [], ◌∷◌, Memᴰ, if◌then◌else◌}
use rcab.Assignments.{DriverStates, reconcile}
use rcab.Assignments.Walk.{IsCurrent}
use rcab.Assignments.Repaired.{reconcile-IsCurrent}
use rcab.Tests.Dispatch.{db4}

abbrev drifted : DriverStates
drifted d = if d == 7 then some none else if d == 8 then some (some 9) else none

reconcile-IsCurrent_example : IsCurrent db4 (reconcile db4 drifted 5000 (8 ∷ 7 ∷ [])).1 7
reconcile-IsCurrent_example =
    reconcile-IsCurrent db4 drifted 5000 (8 ∷ 7 ∷ []) 7 (Memᴰ.tail (Memᴰ.head refl))
