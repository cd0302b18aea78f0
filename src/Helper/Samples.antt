-- ===== src/Helper/Samples.antt =====
-- Parameters for the tests of the helpers: a library sherpa as documented, words split at spaces,
-- whole numbers for floating-point ones, and versions that are numbers.
use jvm_vendors.Base.{ℕ, ltb, none, some, [], ◌++◌}
use jvm_vendors.Base.Int.{ℤ, pos, quot, pos_part, ◌*ℤ◌}
use jvm_vendors.Base.Float.{Float64}
use jvm_vendors.Base.Files.{contents, not_found}
use jvm_vendors.Base.Text.{codes, join}
use jvm_vendors.Base.Text.Split.{split}
use jvm_vendors.Base.Text.Decimal.{value}
use jvm_vendors.Versions.{Semver}
use jvm_vendors.Count.Classes.{no_modules}
use jvm_vendors.Helper.Env.{Shellwords, Sherpa, values, is_on}
use jvm_vendors.Helper.Memory.Limits.{LimitFiles}
use jvm_vendors.Helper.Memory.ClassCount.{ClassFiles}

abbrev pub words : Shellwords
words s = some (split b' ' s)

abbrev pub sherpa : Sherpa
sherpa = record {
  resolve_bool = λ e k. is_on e k;
  resolve_bool_with_default = λ e k d. d;
  get_env_with_default = λ e k d. elim (e k) [ none ↦ d | some v ↦ v ];
  append_to_env_var = λ e k delimiter vs. join (values (e k) ++ vs) delimiter;
}

abbrev pub limits : LimitFiles
limits = record {
  v1 = not_found;
  v2 = contents (codes "max\n");
  mem_info = contents (codes "MemAvailable: 2097152 kB\n");
}

abbrev pub versions : Semver ℕ
versions = record { new_version = λ s. some (value s); less_than = ltb }

-- Whole numbers, with division rounded.
abbrev pub naturals : Float64 ℤ
naturals = record {
  of_int = λ n. n;
  mul = λ a b. a *ℤ b;
  div = λ a b. quot a (pos_part b);
  to_int = λ n. n;
  ratio = λ a b. pos a;
}

abbrev pub no_files : ClassFiles
no_files = record { walk_of = λ p. []; modules_of = λ p. no_modules }
