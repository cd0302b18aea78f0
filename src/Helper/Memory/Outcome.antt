-- ===== src/Helper/Memory/Outcome.antt =====
-- What the memory calculator returns: the options that were set, then the flags of the regions.
use jvm_vendors.Base.{◌≡◌, ◌↔◌, refl, sym, subst, some, List, [], ◌∷◌, ◌++◌, inl, inr}
use jvm_vendors.Base.Result.{Result, ok, err, ◌>>=◌, map_err, >>=-eq-ok}
use jvm_vendors.Base.Text.{Text, codes, join}
use jvm_vendors.Base.Float.{Float64}
use jvm_vendors.Versions.{Semver}
use jvm_vendors.Calc.Size.{Size}
use jvm_vendors.Calc.Flags.{
  direct_memory_string, heap_string, metaspace_string, reserved_code_cache_string, stack_string,
}
use jvm_vendors.Calc.Regions.{MemoryRegions, CalcError}
use jvm_vendors.Calc.Calculator.{Calculator, Output, calculate}
use jvm_vendors.Calc.Calculator.Fits.{calculate-IsFit}
use jvm_vendors.Helper.Env.{
  join-values, Env, Variables, Shellwords, values, or_empty, java_tool_options,
}
use jvm_vendors.Helper.Memory.{
  calculated_flags, shown, shown_regions, calculator_of, options_of, compact_headers, execute,
}
use jvm_vendors.Helper.Memory.Limits.{LimitFiles}
use jvm_vendors.Helper.Memory.ClassCount.{MemoryError, bad_calculation, ClassFiles}
use jvm_vendors.Helper.Memory.Shown.{one-append, shown-one, in_options, ShowsRegions}

module _ {F V : Type 0} (fl : Float64 F) (sv : Semver V) where
  unfoldable pub options_text : Env → Calculator → List Text → Text
  options_text env c flags =
      join
        (values (env java_tool_options)
          ++ (flags ++ compact_headers fl sv env c.low_profile (or_empty (env java_tool_options))))
        (codes " ")

  options_text_kept :
      (env : Env) (c : Calculator) (flags : List Text)
      → (more : Text) × (options_text env c flags ≡ or_empty (env java_tool_options) ++ more)
  unfolding options_text
  options_text_kept env c flags = join-values (env java_tool_options) _ (codes " ")

  shows_regions :
      (env : Env) (c : Calculator) (m : MemoryRegions F) (heap metaspace : Size)
      → m.heap ≡ some heap
      → m.metaspace ≡ some metaspace
      → ShowsRegions (options_text env c (shown_regions fl sv m heap metaspace)) m
  unfolding options_text shown_regions
  shows_regions env c m heap metaspace hh hm =
      let a = shown direct_memory_string m.direct_memory in
      let b = shown heap_string heap in
      let d = shown metaspace_string metaspace in
      let e = shown reserved_code_cache_string m.reserved_code_cache in
      let f = shown stack_string m.stack in
      let flags = a ++ (b ++ (d ++ (e ++ f))) in
      let found = in_options (env java_tool_options) flags _ in
      record {
        heap = heap;
        heap_set = hh;
        metaspace = metaspace;
        metaspace_set = hm;
        shows_direct_memory = λ u.
            found _ (one-append _ a _ (inl (shown-one direct_memory_string m.direct_memory u)));
        shows_heap = λ u.
            found _
              (one-append _ a _ (inr (one-append _ b _ (inl (shown-one heap_string heap u)))));
        shows_metaspace = λ u. found _ (
            one-append _ a _ (
              inr (
                one-append _ b _
                  (inr (one-append _ d _ (inl (shown-one metaspace_string metaspace u)))))));
        shows_code_cache = λ u. found _ (
            one-append _ a _ (
              inr (
                one-append _ b _ (
                  inr (
                    one-append _ d _ (
                      inr (
                        one-append _ e _ (
                          inl
                            (shown-one reserved_code_cache_string m.reserved_code_cache u)))))))));
        shows_stack = λ u. found _ (
            one-append _ a _ (
              inr (
                one-append _ b _ (
                  inr (
                    one-append _ d _
                      (inr (one-append _ e f (inr (shown-one stack_string m.stack u)))))))));
      }

  -- What a calculation returns has a heap and a metaspace.
  pub regions_set :
      (shellwords : Shellwords) (c : Calculator) (opts : Text) {o : Output F}
      → calculate fl shellwords c opts ≡ ok o
      → (heap : Size) × (metaspace : Size) × (o.memory.heap ≡ some heap)
        × (o.memory.metaspace ≡ some metaspace)
  regions_set shellwords c opts h =
      let (m, read, fit) = calculate-IsFit fl shellwords c opts h in
      (fit.heap, _, fit.heap_set, fit.metaspace)

  map_err-eq-ok :
      (r : Result CalcError (Output F)) (f : Output F → Result MemoryError Variables)
      {vs : Variables}
      → (map_err bad_calculation r >>= f) ≡ ok vs
      → (o : Output F) × (r ≡ ok o) × (f o ≡ ok vs)
  map_err-eq-ok (ok o) f h = (o, refl, h)
  map_err-eq-ok (err e) f h = cc

  calculated_flags-set :
      (m : MemoryRegions F) (heap metaspace : Size)
      → m.heap ≡ some heap
      → m.metaspace ≡ some metaspace
      → calculated_flags fl sv m ≡ ok (shown_regions fl sv m heap metaspace)
  unfolding calculated_flags
  calculated_flags-set m heap metaspace hh hm = rw (hh, hm)

  pub options_of-set :
      (env : Env) (c : Calculator) (o : Output F) (heap metaspace : Size)
      → o.memory.heap ≡ some heap
      → o.memory.metaspace ≡ some metaspace
      → options_of fl sv env c o
        ≡ ok (
            (java_tool_options, options_text env c (shown_regions fl sv o.memory heap metaspace))
            ∷ [])
  unfolding options_of options_text
  options_of-set env c o heap metaspace hh hm =
      rw (calculated_flags-set o.memory heap metaspace hh hm)

  -- The one variable that the helper sets for a calculation: its text is the options that were set
  -- with more behind them, and has the flags of the regions.
  pub record IsSetTo (env : Env) (o : Output F) (vs : Variables) : Type 0 where
    pub text : Text
    pub only : vs ≡ (java_tool_options, text) ∷ []
    pub more : Text
    pub kept : text ≡ or_empty (env java_tool_options) ++ more
    pub shows : ShowsRegions text o.memory

  run_set :
      (shellwords : Shellwords) (files : ClassFiles) (limits : LimitFiles) (env : Env)
      (c : Calculator) (o : Output F)
      → calculator_of fl sv shellwords files limits env (or_empty (env java_tool_options)) ≡ ok c
      → calculate fl shellwords c (or_empty (env java_tool_options)) ≡ ok o
      → (vs : Variables) × (execute fl sv shellwords files limits env ≡ ok vs) × IsSetTo env o vs
  unfolding execute
  run_set shellwords files limits env c o hc ho =
      let (heap, metaspace, hh, hm) = regions_set shellwords c _ ho in
      let text = options_text env c (shown_regions fl sv o.memory heap metaspace) in
      let (more, e) = options_text_kept env c (shown_regions fl sv o.memory heap metaspace) in
      (
        (java_tool_options, text) ∷ [],
        rw (hc, ho) (options_of-set env c o heap metaspace hh hm),
        record {
          text = text;
          only = refl;
          more = more;
          kept = e;
          shows = shows_regions env c o.memory heap metaspace hh hm;
        },
      )

  run_inverse :
      (shellwords : Shellwords) (files : ClassFiles) (limits : LimitFiles) (env : Env)
      {vs : Variables}
      → execute fl sv shellwords files limits env ≡ ok vs
      → (c : Calculator) × (o : Output F) × (calculator_of fl sv shellwords files limits env
            (or_empty (env java_tool_options))
          ≡ ok c)
        × (calculate fl shellwords c (or_empty (env java_tool_options)) ≡ ok o)
  unfolding execute
  run_inverse shellwords files limits env h =
      let opts = or_empty (env java_tool_options) in
      let (c, hc, rest) = >>=-eq-ok (calculator_of fl sv shellwords files limits env opts) _ h in
      let (o, ho, _) =
        map_err-eq-ok (calculate fl shellwords c opts) (λ o. options_of fl sv env c o) rest in
      (c, o, hc, ho)

  -- What a run of the memory calculator returns, on what its settings and the calculation give.
  pub data Run (shellwords : Shellwords) (files : ClassFiles) (limits : LimitFiles) (env : Env)
      : Result MemoryError Variables → Type 0 where
    succeeds :
        (c : Calculator) (o : Output F) (vs : Variables)
        → calculator_of fl sv shellwords files limits env (or_empty (env java_tool_options)) ≡ ok c
        → calculate fl shellwords c (or_empty (env java_tool_options)) ≡ ok o
        → IsSetTo env o vs
        → Run shellwords files limits env (ok vs)
    settings_fail :
        (e : MemoryError)
        → calculator_of fl sv shellwords files limits env (or_empty (env java_tool_options)) ≡ err e
        → Run shellwords files limits env (err e)
    calculation_fails :
        (c : Calculator) (e : CalcError)
        → calculator_of fl sv shellwords files limits env (or_empty (env java_tool_options)) ≡ ok c
        → calculate fl shellwords c (or_empty (env java_tool_options)) ≡ err e
        → Run shellwords files limits env (err (bad_calculation e))

  calculated-Run :
      (shellwords : Shellwords) (files : ClassFiles) (limits : LimitFiles) (env : Env)
      (c : Calculator) (r : Result CalcError (Output F))
      → calculator_of fl sv shellwords files limits env (or_empty (env java_tool_options)) ≡ ok c
      → calculate fl shellwords c (or_empty (env java_tool_options)) ≡ r
      → Run shellwords files limits env (execute fl sv shellwords files limits env)
  unfolding execute
  calculated-Run shellwords files limits env c (ok o) hc ho =
      let (vs, e, set) = run_set shellwords files limits env c o hc ho in
      subst (Run shellwords files limits env) (sym e) (succeeds c o vs hc ho set)
  calculated-Run shellwords files limits env c (err e) hc he =
      rw (hc, he) (calculation_fails c e hc he)

  settings-Run :
      (shellwords : Shellwords) (files : ClassFiles) (limits : LimitFiles) (env : Env)
      (r : Result MemoryError Calculator)
      → calculator_of fl sv shellwords files limits env (or_empty (env java_tool_options)) ≡ r
      → Run shellwords files limits env (execute fl sv shellwords files limits env)
  unfolding execute
  settings-Run shellwords files limits env (ok c) hc =
      calculated-Run shellwords files limits env c _ hc refl
  settings-Run shellwords files limits env (err e) he = rw he (settings_fail e he)

  -- The memory calculator succeeds exactly if its settings can be read and the calculation for the
  -- options that were set succeeds. When it succeeds it sets JAVA_TOOL_OPTIONS only, to the options that
  -- were set with more behind them, and the text has the flag of every region that the options do not
  -- set. When it fails, its error is that of the settings or of the calculation.
  pub execute_iff :
      (shellwords : Shellwords) (files : ClassFiles) (limits : LimitFiles) (env : Env)
      → (((vs : Variables) × (execute fl sv shellwords files limits env ≡ ok vs)) ↔ (
          (c : Calculator) × (o : Output F) × (calculator_of fl sv shellwords files limits env
              (or_empty (env java_tool_options))
            ≡ ok c)
          × (calculate fl shellwords c (or_empty (env java_tool_options)) ≡ ok o)))
        × Run shellwords files limits env (execute fl sv shellwords files limits env)
  execute_iff shellwords files limits env = (
    (
      (λ r. run_inverse shellwords files limits env r.1),
      λ (c, o, hc, ho). let (vs, e, set) = run_set shellwords files limits env c o hc ho in (vs, e),
    ),
    settings-Run shellwords files limits env _ refl,
  )
