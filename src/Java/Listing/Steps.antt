-- ===== src/Java/Listing/Steps.antt =====
-- The listing ends: no run is longer than the paths allow, and until it returns something can happen.
use jvm_vendors.Base.{
  ℕ, ◌+◌, ◌*◌, ◌≤◌, ◌<◌, ◌≡◌, refl, ◌⊎◌, Bool, Option, none, some, List, [], ◌∷◌, ◌++◌, arith,
  Bool-cases, inl, inr, length, length-append,
}
use jvm_vendors.Base.Sorting.{sort}
use jvm_vendors.Base.Text.{Text}
use jvm_vendors.Java.Listing.{
  MavenJar, process, jar_order, State, running, returned, Step, take, deliver, deliver_error, stop,
  close, Run, here, next,
}

-- The steps that are left at most: two for each path that waits, one for each in the hands of a
-- worker, and the last.
abbrev pub measure : State → ℕ
measure (running ps ws ms) = 2 * length ps + length ws + 1
measure (returned r) = 0

abbrev pub IsReturned : State → Type 0
IsReturned (returned r) = Unit
IsReturned (running ps ws ms) = ⊥

module _ (hash : Text → Option Text) (closes : Bool) where
  pub Step-measure : {s t : State} → Step hash closes s t → measure t < measure s
  Step-measure (take p ps ws ms room es et) = rw (es, et) (omega arith)
  Step-measure (deliver ps front p back ms m ready es et) =
      rw (es, et) (omega (arith, length-append front (p ∷ back), length-append front back))
  Step-measure (deliver_error ps front p back ms failed es et) = rw (es, et) (omega arith)
  Step-measure (stop ws ms left es et) = rw (es, et) (omega arith)
  Step-measure (close ms closed es et) = rw (es, et) (omega arith)

  pub Run-measure : {s t : State} {n : ℕ} → Run hash closes s n t → n + measure t ≤ measure s
  Run-measure here = omega arith
  Run-measure (next r st) = omega (arith, Run-measure r, Step-measure st)

  -- A busy worker can hand its result over.
  hand_over :
      (ps : List Text) (p : Text) (ws : List Text) (ms : List MavenJar)
      → (t : State) × Step hash closes (running ps (p ∷ ws) ms) t
  hand_over ps p ws ms = by_result (process hash p) refl
    where
      by_result :
          (r : Option MavenJar)
          → process hash p ≡ r
          → (t : State) × Step hash closes (running ps (p ∷ ws) ms) t
      by_result (some m) e = (running ps ws (ms ++ m ∷ []), deliver ps [] p ws ms m e refl refl)
      by_result none e = (returned none, deliver_error ps [] p ws ms e refl refl)

  abbrev pub CanStep : State → Type 0
  CanStep s = (t : State) × Step hash closes s t

  pub progress : (s : State) → IsReturned s ⊎ CanStep s
  progress (returned r) = inl tt
  progress (running ps (p ∷ ws) ms) = inr (hand_over ps p ws ms)
  progress (running (p ∷ ps) [] ms) =
      inr (running ps (p ∷ []) ms, take p ps [] ms (omega arith) refl refl)
  progress (running [] [] ms) = elim (Bool-cases closes) [
    | inl e ↦ inr (returned (some (sort jar_order ms)), close ms e refl refl)
    | inr e ↦ inr (returned none, stop [] ms e refl refl)
  ]

  -- The listing cannot go on for ever and cannot get stuck: a run has at most two steps for each path
  -- and one more, and as long as it has not returned, a further step can happen. So each run that
  -- goes on as long as it can ends with a result.
  pub Run-ends :
      (paths : List Text) {n : ℕ} {s : State}
      → Run hash closes (running paths [] []) n s
      → (n ≤ 2 * length paths + 1) × (IsReturned s ⊎ ((t : State) × Step hash closes s t))
  Run-ends paths {n} {s} run = (omega (arith, Run-measure run), progress s)
