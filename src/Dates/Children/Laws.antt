-- ===== src/Dates/Children/Laws.antt =====
-- The loop over the children against a statement about each child.
use taiga_back_schedule_mana.Base.{◌≤◌, ◌≡◌, ◌↔◌, Option, none, some, List, [], ◌∷◌, All, arith}
use taiga_back_schedule_mana.Model.{Date, Message}
use taiga_back_schedule_mana.Dates.Children.Defs.{
  Dates, earliest, latest, children_bounds, bounds_error,
}

-- A known start of the child is not before a known start of the parent.
abbrev pub StartsWithin : Option Date → Option Date → Type 0
StartsWithin none child = Unit
StartsWithin (some parent) none = Unit
StartsWithin (some parent) (some child) = parent ≤ child

-- A known due date of the child is not after a known due date of the parent.
abbrev pub EndsWithin : Option Date → Option Date → Type 0
EndsWithin none child = Unit
EndsWithin (some parent) none = Unit
EndsWithin (some parent) (some child) = child ≤ parent

abbrev pub Within : Dates → Dates → Type 0
Within parent child = StartsWithin parent.0 child.0 × EndsWithin parent.1 child.1

earliest-StartsWithin :
    (p s m : Option Date) → StartsWithin p (earliest s m) ↔ (StartsWithin p s × StartsWithin p m)
unfolding earliest
earliest-StartsWithin none s m = ground arith
earliest-StartsWithin (some p) none m = ground arith
earliest-StartsWithin (some p) (some s) none = ground arith
earliest-StartsWithin (some p) (some s) (some m) = ground arith

latest-EndsWithin :
    (p d x : Option Date) → EndsWithin p (latest d x) ↔ (EndsWithin p d × EndsWithin p x)
unfolding latest
latest-EndsWithin none d x = ground arith
latest-EndsWithin (some p) none x = ground arith
latest-EndsWithin (some p) (some d) none = ground arith
latest-EndsWithin (some p) (some d) (some x) = ground arith

pub children_bounds-Within :
    (p : Dates) (children : List Dates) (acc : Dates)
    → Within p (children_bounds children acc) ↔ (Within p acc × All (Within p) children)
unfolding children_bounds
children_bounds-Within p [] acc = ((λ h. (h, tt)), (λ h. h.0))
children_bounds-Within p (c ∷ children) acc =
    let (to, from) = children_bounds-Within p children (earliest c.0 acc.0, latest c.1 acc.1) in
    let (starts, starts') = earliest-StartsWithin p.0 c.0 acc.0 in
    let (ends, ends') = latest-EndsWithin p.1 c.1 acc.1 in
    (
      (λ h.
          let (now, rest) = to h in
          let s = starts now.0 in let e = ends now.1 in ((s.1, e.1), ((s.0, e.0), rest))),
      (λ h. from ((starts' (h.1.0.0, h.0.0), ends' (h.1.0.1, h.0.1)), h.1.1)),
    )

pub bounds_error-eq-none : (m : Message) (p b : Dates) → (bounds_error m p b ≡ none) ↔ Within p b
bounds_error-eq-none m (none, none) (s, d) = ground arith
bounds_error-eq-none m (none, some e) (s, none) = ground arith
bounds_error-eq-none m (none, some e) (s, some d) = ground arith
bounds_error-eq-none m (some b, none) (none, d) = ground arith
bounds_error-eq-none m (some b, none) (some s, d) = ground arith
bounds_error-eq-none m (some b, some e) (none, none) = ground arith
bounds_error-eq-none m (some b, some e) (some s, none) = ground arith
bounds_error-eq-none m (some b, some e) (none, some d) = ground arith
bounds_error-eq-none m (some b, some e) (some s, some d) = ground arith
