-- ===== src/Helper/Providers.antt =====
-- helper/security_providers_configurer.go: the list of security providers, from the providers of
-- the JVM and those that are added, each with or without an index.
pub mod Compact
pub mod Places
pub mod Indexed
pub mod Recorded
pub mod Numbering
pub mod Appended
pub mod Faults
mod Tests
use jvm_vendors.Base.{
  ℕ, zero, suc, ◌+◌, ◌-◌, Bool, true, false, not, ◌&&◌, ◌||◌, Option, none, some, List, [], ◌∷◌,
  ◌++◌, String, ltb, leb, ◌==◌, if◌then◌else◌, is_nil, length, take, drop, replicate, get_elem?,
}
use jvm_vendors.Base.Result.{Result, ok, err, ◌>>=◌}
use jvm_vendors.Base.Text.{Text, codes, within}
use jvm_vendors.Base.Text.Split.{split}
use jvm_vendors.Base.Text.Decimal.{value, decimal}
use jvm_vendors.Calc.Size.{split_digits, max_i64}

-- An error of the helper; `index_out_of_range` is the panic of the runtime.
pub data ProviderError : Type 0 where
  missing_variable : String → ProviderError
  bad_index : Text → ProviderError
  cannot_open cannot_write index_out_of_range : ProviderError

-- The class [\w.].
unfoldable pub is_word : ℕ → Bool
is_word c = within b'a' b'z' c || within b'A' b'Z' c || within b'0' b'9' c || c == b'_' || c == b'.'

-- The longest run of [\w.] in front.
unfoldable pub word_run : Text → Text
word_run [] = []
word_run (c ∷ s) = let rest = word_run s in if is_word c then c ∷ rest else []

-- A name, if it is not empty, behind an index.
named : Text → Text → Option (Text × Text)
named index [] = none
named index (c ∷ w) = some (index, c ∷ w)

or_else : {A : Type 0} → Option A → Option A → Option A
or_else none o = o
or_else (some a) o = some a

-- `index|name` in front of a text; the digits have to reach up to the bar.
indexed : Text × Text → Option (Text × Text)
indexed ([], rest) = none
indexed (d ∷ ds, []) = none
indexed (d ∷ ds, c ∷ rest) = if c == b'|' then named (d ∷ ds) (word_run rest) else none

-- The two groups of (?:([\d]+)\|)?([\w.]+) at the leftmost place where it matches.
unfoldable pub match_provider : Text → Option (Text × Text)
unfolding named or_else indexed
match_provider [] = none
match_provider (c ∷ s) =
    or_else (or_else (indexed (split_digits (c ∷ s))) (named [] (word_run (c ∷ s))))
      (match_provider s)

set_at : ℕ → Text → List Text → List Text
set_at i name [] = []
set_at zero name (p ∷ ps) = name ∷ ps
set_at (suc i) name (p ∷ ps) = p ∷ set_at i name ps

-- `for len(providers) <= i`: empty places are added up to place `i`.
pad : ℕ → List Text → List Text
pad i ps = ps ++ replicate (i + 1 - length ps) []

-- `copy(providers[i+1:], providers[i:])` after one more place: from place `i` on all move up by one.
shift : ℕ → List Text → List Text
shift i ps = take (i + 1) ps ++ drop i ps

is_free : Option Text → Bool
is_free none = true
is_free (some p) = is_nil p

-- What is at place `i` moves up, unless the place is empty.
put_in : ℕ → Text → List Text → List Text
unfolding set_at is_free
put_in i name ps = set_at i name (if is_free (get_elem? ps i) then ps else shift i ps)

-- A provider at place `i`, before the one that is there.
pub place : ℕ → Text → List Text → List Text
place i name ps = put_in i name (pad i ps)

-- The index 0 becomes -1, at which the slice has no element.
place_from_one : ℕ → Text → List Text → Result ProviderError (List Text)
place_from_one zero name ps = err index_out_of_range
place_from_one (suc i) name ps = ok (place i name ps)

-- `strconv.Atoi` of digits fails where the number does not fit an int.
add_match : List Text → Option (Text × Text) → Result ProviderError (List Text)
add_match ps none = ok ps
add_match ps (some ([], name)) = ok (ps ++ name ∷ [])
add_match ps (some (d ∷ ds, name)) =
    if leb (value (d ∷ ds)) max_i64
    then place_from_one (value (d ∷ ds)) name ps
    else err (bad_index (d ∷ ds))

pub collect : List Text → List Text → Result ProviderError (List Text)
unfolding add_match place_from_one
collect ps [] = ok ps
collect ps (entry ∷ entries) = do ps' ← add_match ps (match_provider entry); collect ps' entries

-- The loop that removes empty places. Each round moves on or shortens the list.
compact_loop : ℕ → ℕ → List Text → List Text
compact_loop zero j ps = ps
compact_loop (suc rounds) j ps =
    let next = compact_loop rounds (j + 1) ps in
    let removed = compact_loop rounds j (take j ps ++ drop (j + 1) ps) in
    elim (get_elem? ps j) [ none ↦ ps | some p ↦ if is_nil p then removed else next ]

pub compact : List Text → List Text
unfolding compact_loop
compact ps = compact_loop (length ps) 0 ps

pub provider_line : ℕ → Text → Text
provider_line i p = codes "security.provider." ++ (decimal i ++ (codes "=" ++ (p ++ codes "\n")))

-- The lines that are written, each in a write of its own.
pub provider_lines : ℕ → List Text → List Text
unfolding provider_line
provider_lines i [] = []
provider_lines i (p ∷ ps) = provider_line (i + 1) p ∷ provider_lines (i + 1) ps

-- What the helper finds of the properties file: whether it may write it, and open it, and which of
-- its writes succeed.
pub record PropertiesFile : Type 0 where
  pub writable : Bool
  pub opens : Bool
  pub writes : ℕ → Bool

-- Writes one after another, up to the first that fails; the text that was written, and success.
write_all : (ℕ → Bool) → ℕ → List Text → Text × Bool
write_all writes n [] = ([], true)
write_all writes n (t ∷ ts) =
    let (rest, done) = write_all writes (n + 1) ts in
    if writes n then (t ++ rest, done) else ([], false)

written : Text × Bool → Result ProviderError Text × Text
written (t, true) = (ok t, t)
written (t, false) = (err cannot_write, t)

append_providers :
    PropertiesFile → Result ProviderError (List Text) → Result ProviderError Text × Text
append_providers file (err e) = (err e, [])
append_providers file (ok ps) =
    if file.opens
    then written (write_all file.writes 0 (codes "\n" ∷ provider_lines 0 (compact ps)))
    else (err cannot_open, [])

abbrev space : ℕ
space = b' '

configure : PropertiesFile → Text → Text → Result ProviderError Text × Text
configure file builtin added =
    if file.writable
    then append_providers file (collect [] (split space builtin ++ split space added))
    else (ok [], [])

-- `SecurityProvidersConfigurer.Execute`: the result, and the text that is appended to the file.
pub execute : (String → Option Text) → PropertiesFile → Result ProviderError Text × Text
unfolding configure append_providers written write_all collect compact provider_lines
execute env file = elim (env "SECURITY_PROVIDERS") [
  | none ↦ (ok [], [])
  | some added ↦ elim (env "BPI_JVM_SECURITY_PROVIDERS") [
    | none ↦ (err (missing_variable "BPI_JVM_SECURITY_PROVIDERS"), [])
    | some builtin ↦ elim (env "JAVA_SECURITY_PROPERTIES") [
      | none ↦ (err (missing_variable "JAVA_SECURITY_PROPERTIES"), [])
      | some _ ↦ configure file builtin added
    ]
  ]
]
