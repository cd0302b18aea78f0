-- ===== src/Java/Listing/Completion.antt =====
-- From wherever a listing has come it can return, and then returns what the sequential program does.
use jvm_vendors.Base.{
  ℕ, zero, suc, Bool, ◌+◌, ◌*◌, ◌≤◌, inl, inr, Option, List, [], arith, length, subst,
}
use jvm_vendors.Base.Text.{Text}
use jvm_vendors.Java.Listing.{MavenJar, State, running, returned, Step, Run, here, next, sequential}
use jvm_vendors.Java.Listing.Steps.{measure, IsReturned, Step-measure, Run-measure, progress}
use jvm_vendors.Java.Listing.Orders.{Run-sequential}

module _ (hash : Text → Option Text) (closes : Bool) where
  Run-after_step :
      {s t u : State} {n : ℕ}
      → Step hash closes s t
      → Run hash closes t n u
      → Run hash closes s (n + 1) u
  Run-after_step st here = next here st
  Run-after_step st (next r last) = next (Run-after_step st r) last

  Run-append :
      {s t u : State} {n k : ℕ}
      → Run hash closes s n t
      → Run hash closes t k u
      → Run hash closes s (n + k) u
  Run-append {s} {u = u} {n} r here = subst (λ k. Run hash closes s k u) (omega arith) r
  Run-append {s} {u = u} {n} r (next {n = k} q last) =
      subst (λ m. Run hash closes s m u) (omega arith) (next (Run-append r q) last)

  Returns : State → Type 0
  Returns s = (k : ℕ) × (r : Option (List MavenJar)) × Run hash closes s k (returned r)

  IsReturned-Returns : (s : State) → IsReturned s → Returns s
  unfolding Returns
  IsReturned-Returns (returned r) h = (0, r, here)
  IsReturned-Returns (running ps ws ms) h = absurd h

  measure-Returns : (fuel : ℕ) (s : State) → measure s ≤ fuel → Returns s
  unfolding Returns
  measure-Returns zero (returned r) h = (0, r, here)
  measure-Returns zero (running ps ws ms) h = absurd (omega arith)
  measure-Returns (suc fuel) s h = elim (progress hash closes s) [
    | inl done ↦ IsReturned-Returns s done
    | inr step ↦
        let (k, r, run) =
          measure-Returns fuel step.0 (omega (arith, Step-measure hash closes step.1)) in
        (k + 1, r, Run-after_step step.1 run)
  ]

  -- Whatever a listing has done so far, it can go on until it returns: it needs no more steps than the
  -- paths allow in all, and returns what the sequential program does.
  pub Run-returns :
      (paths : List Text) {n : ℕ} {s : State}
      → Run hash closes (running paths [] []) n s
      → (k : ℕ) × (n + k ≤ 2 * length paths + 1)
        × Run hash closes s k (returned (sequential hash (paths, closes)))
  unfolding Returns
  Run-returns paths {n} {s} run =
      let (k, r, more) = measure-Returns (measure s) s (omega arith) in
      let whole = Run-append run more in
      (
        k,
        omega (arith, Run-measure hash closes whole),
        subst (λ q. Run hash closes s k (returned q)) (Run-sequential hash closes paths whole) more,
      )
