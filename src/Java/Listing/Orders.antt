-- ===== src/Java/Listing/Orders.antt =====
-- Every order of events gives the listing of the sequential program.
use jvm_vendors.Base.{
  ℕ, ◌≡◌, refl, sym, ◌∙◌, ap, subst, Bool, true, false, Option, none, some, List, [], ◌∷◌, ◌++◌,
  Bool-cases, inl, inr,
}
use mathlib.Core.List.{Perm, perm_middle, perm_append_singleton, append-nil, append_assoc, foldr}
use mathlib.Core.List.Perm
use jvm_vendors.Base.Sorting.{insert, sort, insert_comm, sort-Perm}
use jvm_vendors.Base.Text.{Text}
use jvm_vendors.Java.Listing.{
  MavenJar, process, jar_order, State, running, returned, Step, take, deliver, deliver_error, stop,
  close, Run, here, next, add_jar, all_jars, sorted, sequential,
}

Jars-IsSet : IsSet (List MavenJar)
Jars-IsSet = hlevel

insert_jar : Option MavenJar → Option (List MavenJar) → Option (List MavenJar)
insert_jar none ms = none
insert_jar (some m) none = none
insert_jar (some m) (some ms) = some (insert jar_order m ms)

insert_jar_comm :
    (a b : Option MavenJar) (ms : Option (List MavenJar))
    → insert_jar a (insert_jar b ms) ≡ insert_jar b (insert_jar a ms)
unfolding insert_jar
insert_jar_comm none none ms = refl
insert_jar_comm none (some b) ms = refl
insert_jar_comm (some a) none ms = refl
insert_jar_comm (some a) (some b) none = refl
insert_jar_comm (some a) (some b) (some ms) = ap some (insert_comm jar_order a b ms)

module _ (hash : Text → Option Text) where
  add : Text → Option (List MavenJar) → Option (List MavenJar)
  add p = insert_jar (process hash p)

  -- The jars of some paths, in the order of the listing.
  collected : List Text → Option (List MavenJar)
  collected ps = foldr add (some []) ps

  collected-Perm : {ps qs : List Text} → Perm ps qs → collected ps ≡ collected qs
  unfolding collected add
  collected-Perm p =
      Perm.foldr-eq (hlevel) add (λ a b ms. insert_jar_comm (process hash a) (process hash b) ms) p
        (some [])

  insert_jar-sorted :
      (m : Option MavenJar) (ms : Option (List MavenJar))
      → insert_jar m (sorted ms) ≡ sorted (add_jar m ms)
  unfolding insert_jar sorted add_jar
  insert_jar-sorted none none = refl
  insert_jar-sorted none (some ms) = refl
  insert_jar-sorted (some m) none = refl
  insert_jar-sorted (some m) (some ms) = unfold sort in refl

  collected-sorted : (ps : List Text) → collected ps ≡ sorted (all_jars hash ps)
  unfolding collected add all_jars
  collected-sorted [] = unfold sorted sort in refl
  collected-sorted (p ∷ ps) =
      ap (insert_jar (process hash p)) (collected-sorted ps)
      ∙ insert_jar-sorted (process hash p) (all_jars hash ps)

  collected-cons :
      (p : Text) (ps : List Text) → collected (p ∷ ps) ≡ insert_jar (process hash p) (collected ps)
  unfolding collected add
  collected-cons p ps = refl

  collected-none :
      (xs : List Text) (p : Text) (ys : List Text)
      → process hash p ≡ none
      → collected (xs ++ p ∷ ys) ≡ none
  unfolding insert_jar
  collected-none xs p ys h = collected-Perm (perm_middle xs ys) ∙ rw (collected-cons, h)

  collected-some :
      (p : Text) (ps : List Text) (m : MavenJar) (ms : List MavenJar)
      → process hash p ≡ some m
      → collected ps ≡ some (sort jar_order ms)
      → collected (p ∷ ps) ≡ some (sort jar_order (ms ++ m ∷ []))
  unfolding insert_jar
  collected-some p ps m ms h e =
      rw (collected-cons, h, e)
        (unfold sort in
          ap some (sort-Perm jar_order (hlevel) (Perm.symm (perm_append_singleton m ms))))

  module _ (closes : Bool) (paths : List Text) where
    -- The paths that are done, those of the workers and those that wait are all paths, and what is
    -- collected are the jars of the paths that are done; a result is that of the sequential program.
    Inv : State → Type 0
    Inv (running ps ws ms) =
        (done : List Text) × Perm paths (done ++ (ws ++ ps))
        × (collected done ≡ some (sort jar_order ms))
    Inv (returned r) = r ≡ sequential hash (paths, closes)

    sequential-collected : closes ≡ true → sequential hash (paths, closes) ≡ collected paths
    unfolding sequential
    sequential-collected h = rw h (sym (collected-sorted paths))

    sequential-stopped : closes ≡ false → none ≡ sequential hash (paths, closes)
    unfolding sequential
    sequential-stopped h = rw h

    failed-sequential :
        (done front : List Text) (p : Text) (back ps : List Text)
        → process hash p ≡ none
        → Perm paths (done ++ ((front ++ p ∷ back) ++ ps))
        → none ≡ sequential hash (paths, closes)
    failed-sequential done front p back ps h perm = elim (Bool-cases closes) [
      | inl e ↦
          let same : done ++ ((front ++ p ∷ back) ++ ps) ≡ (done ++ front) ++ p ∷ (back ++ ps) =
            rw (append_assoc front, append_assoc done) in
          sym (
            sequential-collected e
            ∙ (collected-Perm perm ∙ rw same (collected-none (done ++ front) p (back ++ ps) h)))
      | inr e ↦ sequential-stopped e
    ]

    taken-Perm :
        (done ws ps : List Text) (p : Text)
        → Perm (done ++ (ws ++ p ∷ ps)) (done ++ ((p ∷ ws) ++ ps))
    taken-Perm done ws ps p = Perm.append_left done (perm_middle ws ps)

    delivered-Perm :
        (done front back ps : List Text) (p : Text)
        → Perm (done ++ ((front ++ p ∷ back) ++ ps)) ((p ∷ done) ++ ((front ++ back) ++ ps))
    delivered-Perm done front back ps p =
        Perm.trans (Perm.append_left done (Perm.append_right ps (perm_middle front back)))
          (perm_middle done ((front ++ back) ++ ps))

    Step-Inv : {s t : State} → Step hash closes s t → Inv s → Inv t
    unfolding Inv
    Step-Inv (take p ps ws ms room es et) h =
        let (done, perm, e) = subst Inv es h in
        subst Inv (sym et) (done, Perm.trans perm (taken-Perm done ws ps p), e)
    Step-Inv (deliver ps front p back ms m ready es et) h =
        let (done, perm, e) = subst Inv es h in
        subst Inv (sym et) (
          p ∷ done,
          Perm.trans perm (delivered-Perm done front back ps p),
          collected-some p done m ms ready e,
        )
    Step-Inv (deliver_error ps front p back ms failed es et) h =
        let (done, perm, e) = subst Inv es h in
        subst Inv (sym et) (failed-sequential done front p back ps failed perm)
    Step-Inv (stop ws ms left es et) h = subst Inv (sym et) (sequential-stopped left)
    Step-Inv (close ms closed es et) h =
        let (done, perm, e) = subst Inv es h in
        subst Inv (sym et)
          (sym (sequential-collected closed ∙ (collected-Perm perm ∙ rw append-nil e)))

    Run-Inv : {s t : State} {n : ℕ} → Run hash closes s n t → Inv s → Inv t
    Run-Inv here h = h
    Run-Inv (next r st) h = Step-Inv st (Run-Inv r h)

  start-Inv : (closes : Bool) (paths : List Text) → Inv closes paths (running paths [] [])
  unfolding Inv collected
  start-Inv closes paths = ([], Perm.refl paths, unfold sort in refl)

  -- However the goroutines are scheduled, what the listing returns is what the sequential program
  -- returns: the jars of all paths in their order, or an error if a jar cannot be read or a walk fails.
  pub Run-sequential :
      (closes : Bool) (paths : List Text) {n : ℕ} {r : Option (List MavenJar)}
      → Run hash closes (running paths [] []) n (returned r)
      → r ≡ sequential hash (paths, closes)
  unfolding Inv
  Run-sequential closes paths run = Run-Inv closes paths run (start-Inv closes paths)
