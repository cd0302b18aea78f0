-- ===== src/Helper/Memory/ClassCount.antt =====
-- helper/memory_calculator.go: the number of loaded classes, given by the user or estimated.
use jvm_vendors.Base.{ℕ, Option, none, some, List, [], ◌∷◌, String, if◌then◌else◌, get_elem?, map}
use jvm_vendors.Base.Int.{ℤ, pos, add64}
use jvm_vendors.Base.Float.{Float64}
use jvm_vendors.Base.Result.{Result, ok, err, ◌>>=◌, map_err}
use jvm_vendors.Base.Text.{Text, codes, has_prefix, has_suffix, trim_suffix}
use jvm_vendors.Base.Text.Split.{split}
use jvm_vendors.Base.Text.Numbers.{atoi, parse_uint32}
use jvm_vendors.Calc.Regions.{CalcError}
use jvm_vendors.Count.Classes.{ClassError, Step, Modules, classes, jar_classes_from}
use jvm_vendors.Helper.Env.{Env, Shellwords, or_empty}

-- `nil_region` is the panic on a region that is nil.
pub data MemoryError : Type 0 where
  missing : String → MemoryError
  bad : String → Text → MemoryError
  unparsable_options nil_region : MemoryError
  bad_agents bad_application : ClassError → MemoryError
  bad_calculation : CalcError → MemoryError

-- What the file system has for a path: the walk of its files, and its lib/modules.
pub record ClassFiles : Type 0 where
  pub walk_of : Text → List Step
  pub modules_of : Text → Modules

unfoldable pub require : Env → String → Result MemoryError Text
require env k = elim (env k) [ none ↦ err (missing k) | some s ↦ ok s ]

-- `strconv.Atoi` of the value of a variable.
unfoldable pub number : String → Text → Result MemoryError ℤ
number k s = elim (atoi s) [ none ↦ err (bad k s) | some n ↦ ok n ]

-- The paths of the agents: what stands between the first and the second colon.
unfoldable pub agent_paths : List Text → List Text
agent_paths [] = []
agent_paths (s ∷ ss) =
    let rest = agent_paths ss in
    if has_prefix s (codes "-javaagent:")
    then or_empty (get_elem? (split b':' s) 1) ∷ rest
    else rest

unfoldable pub agents_total : List (List Step) → Result MemoryError ℤ
agents_total [] = ok (pos 0)
agents_total (p ∷ ps) = map_err bad_agents (jar_classes_from (p ∷ ps)) >>= λ (n, _). ok (pos n)

-- `CountAgentClasses`
unfoldable pub count_agent_classes : Shellwords → ClassFiles → Text → Result MemoryError ℤ
unfolding agents_total
count_agent_classes shellwords files opts = elim (shellwords opts) [
  | none ↦ err unparsable_options
  | some words ↦ agents_total (map files.walk_of (agent_paths words))
]

-- The percentage, and the number that is added.
pub record Adjustment : Type 0 where
  pub factor : ℕ
  pub static : ℤ

unfoldable pub percentage : Text → Option ℕ → Result MemoryError Adjustment
percentage adj none = err (bad "BPL_JVM_CLASS_ADJUSTMENT" adj)
percentage adj (some n) = ok (record { factor = n; static = pos 0 })

unfoldable pub addition : Text → Option ℤ → Result MemoryError Adjustment
addition adj none = err (bad "BPL_JVM_CLASS_ADJUSTMENT" adj)
addition adj (some n) = ok (record { factor = 100; static = n })

unfoldable pub class_adjustment : Option Text → Result MemoryError Adjustment
unfolding percentage addition
class_adjustment none = ok (record { factor = 100; static = pos 0 })
class_adjustment (some adj) =
    if has_suffix adj (codes "%")
    then percentage adj (parse_uint32 (trim_suffix adj (codes "%")))
    else addition adj (atoi adj)

module _ {F : Type 0} (fl : Float64 F) where
  open fl use {of_int, mul, div, to_int, ratio}

  -- The classes that are loaded: ClassLoadFactor of the adjusted sum.
  unfoldable pub loaded_classes : ℤ → ℤ → ℤ → Adjustment → ℤ
  loaded_classes jvm app agents adj =
      let sum = of_int (add64 (add64 (add64 jvm app) agents) adj.static) in
      let total = mul sum (div (of_int (pos adj.factor)) (ratio 100 1)) in
      to_int (mul total (ratio 35 100))

  -- The branch without BPL_JVM_LOADED_CLASS_COUNT.
  unfoldable pub estimated_class_count : Shellwords → ClassFiles → Env → Text → Result MemoryError ℤ
  estimated_class_count shellwords files env opts = require env "BPI_APPLICATION_PATH" >>= λ path.
      require env "BPI_JVM_CLASS_COUNT" >>= λ s. number "BPI_JVM_CLASS_COUNT" s >>= λ jvm.
      count_agent_classes shellwords files opts >>= λ agents.
      class_adjustment (env "BPL_JVM_CLASS_ADJUSTMENT") >>= λ adj.
      map_err bad_application (classes (files.modules_of path) (files.walk_of path)) >>= λ app.
      ok (loaded_classes jvm (pos app) agents adj)

  unfoldable pub loaded_class_count : Shellwords → ClassFiles → Env → Text → Result MemoryError ℤ
  loaded_class_count shellwords files env opts = elim (env "BPL_JVM_LOADED_CLASS_COUNT") [
    | some s ↦ number "BPL_JVM_LOADED_CLASS_COUNT" s
    | none ↦ estimated_class_count shellwords files env opts
  ]
