-- ===== src/Java/Listing/Tests.antt =====
-- The listing on one jar.
use jvm_vendors.Base.Text.Split.{split}
use jvm_vendors.Base.{ℕ, ◌≡◌, ◌⊎◌, ◌≤◌, ◌*◌, ◌+◌, refl, true, Option, some, [], ◌∷◌, length, arith}
use jvm_vendors.Base.Sorting.{sort}
use jvm_vendors.Base.Text.{strip_prefix, is_digit, Text, codes}
use jvm_vendors.Java.Listing.{
  MavenJar, State, running, returned, Step, take, deliver, close, Run, here, next, process,
  match_maven, sequential, jar_order,
}
use jvm_vendors.Java.Listing.Orders.{Run-sequential}
use jvm_vendors.Java.Listing.Completion.{Run-returns}
use jvm_vendors.Java.Listing.Steps.{IsReturned, Run-ends}

abbrev path : Text
path = codes "/a/b-1.jar"

abbrev hash : Text → Option Text
hash p = some (codes "ab")

abbrev jar : MavenJar
jar = record { name = codes "b"; version = codes "1"; sha256 = codes "ab" }

processed : process hash path ≡ some jar
unfolding process match_maven split is_digit strip_prefix
processed = refl

one_taken : Run hash true (running (path ∷ []) [] []) 1 (running [] (path ∷ []) [])
one_taken = next here (take path [] [] [] (omega arith) refl refl)

one_returned :
    Run hash true (running (path ∷ []) [] []) 3 (returned (some (sort jar_order (jar ∷ []))))
one_returned =
    next (next one_taken (deliver [] [] path [] [] jar processed refl refl))
      (close (jar ∷ []) refl refl refl)

Run-sequential_example : some (sort jar_order (jar ∷ [])) ≡ sequential hash (path ∷ [], true)
Run-sequential_example = Run-sequential hash true (path ∷ []) one_returned

Run-ends_example :
    (1 ≤ 2 * length (path ∷ []) + 1)
    × (IsReturned (running [] (path ∷ []) [])
        ⊎ ((t : State) × Step hash true (running [] (path ∷ []) []) t))
Run-ends_example = Run-ends hash true (path ∷ []) one_taken

Run-returns_example :
    (k : ℕ) × (1 + k ≤ 2 * length (path ∷ []) + 1)
    × Run hash true (running [] (path ∷ []) []) k (returned (sequential hash (path ∷ [], true)))
Run-returns_example = Run-returns hash true (path ∷ []) one_taken
