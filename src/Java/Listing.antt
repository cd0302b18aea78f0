-- ===== src/Java/Listing.antt =====
-- maven_jar_listing.go: the listing of the jars below some roots. One goroutine walks the roots and
-- hands paths out, up to 128 workers hash one jar each, and the caller collects the results. The
-- channels have no buffer, so a value is handed from one to the other in one step.
pub mod Steps
pub mod Orders
pub mod Completion
mod Tests
use jvm_vendors.Base.{
  ℕ, ◌+◌, ◌<◌, ◌≡◌, refl, Bool, true, false, not, ◌&&◌, Option, none, some, List, [], ◌∷◌, ◌++◌,
  if◌then◌else◌, ◌==◌, length,
}
use jvm_vendors.Base.Sorting.{Order, sort, lex}
use jvm_vendors.Base.Text.{Text, codes, has_prefix, has_suffix, base_name, is_digit}
use jvm_vendors.Base.Text.Sorting.{text_order}
use jvm_vendors.Base.Text.Split.{split}

-- MavenJAR
pub record MavenJar : Type 0 where
  pub name : Text
  pub version : Text
  pub sha256 : Text

or_else : {A : Type 0} → Option A → Option A → Option A
or_else none o = o
or_else (some a) o = some a

with_char : ℕ → Option Text → Option Text
with_char c none = none
with_char c (some s) = some (c ∷ s)

-- `.*\.jar`: what stands in front of the last `.jar`.
before_jar : Text → Option Text
unfolding or_else with_char
before_jar [] = none
before_jar (c ∷ s) =
    or_else (with_char c (before_jar s))
      (if has_prefix (c ∷ s) (codes ".jar") then some [] else none)

-- `[\d].*\.jar`
version_jar : Text → Option Text
version_jar [] = none
version_jar (c ∷ s) = let rest = with_char c (before_jar s) in if is_digit c then rest else none

named : ℕ → Option (Text × Text) → Option (Text × Text)
named c none = none
named c (some (name, version)) = some (c ∷ name, version)

unnamed : Option Text → Option (Text × Text)
unnamed none = none
unnamed (some version) = some ([], version)

-- `(.*)-([\d].*)\.jar`: the last dash with a version behind it.
name_and_version : Text → Option (Text × Text)
unfolding named unnamed version_jar before_jar
name_and_version [] = none
name_and_version (c ∷ s) =
    let here = unnamed (version_jar s) in
    or_else (named c (name_and_version s)) (if c == b'-' then here else none)

-- `.*/` in front of that: the last slash with a match behind it.
behind_slash : Text → Option (Text × Text)
unfolding name_and_version
behind_slash [] = none
behind_slash (c ∷ s) =
    let here = name_and_version s in or_else (behind_slash s) (if c == b'/' then here else none)

-- At least one character stands in front of the slash.
match_line : Text → Option (Text × Text)
match_line [] = none
match_line (c ∷ s) = behind_slash s

first_match : List Text → Option (Text × Text)
unfolding match_line behind_slash
first_match [] = none
first_match (l ∷ ls) = or_else (match_line l) (first_match ls)

-- The groups of .+/(.*)-([\d].*)\.jar. A match stands in one line; where a line has one, it has one
-- that begins with the line.
unfoldable pub match_maven : Text → Option (Text × Text)
unfolding first_match
match_maven path = first_match (split b'\n' path)

maven_jar : Text → Option (Text × Text) → Text → MavenJar
maven_jar path none sha = record { name = base_name path; version = codes "unknown"; sha256 = sha }
maven_jar path (some (name, version)) sha = record { name = name; version = version; sha256 = sha }

-- `process`. The hash of a file is given, unless it cannot be opened or read.
unfoldable pub process : (Text → Option Text) → Text → Option MavenJar
unfolding maven_jar
process hash path = elim (hash path) [
  | none ↦ none
  | some sha ↦ some (maven_jar path (match_maven path) sha)
]

-- What the walk visits, or an error of it.
pub data WalkStep : Type 0 where
  file directory : Text → WalkStep
  walk_error : WalkStep

-- A root that is not there, that cannot be resolved, or that is walked.
pub data Root : Type 0 where
  not_there unresolved : Root
  walked : List WalkStep → Root

-- The paths that are handed out, and whether the channel of the paths is closed in the end; if not,
-- an error is handed to the caller.
abbrev pub Sent : Type 0
Sent = List Text × Bool

then_send : Text → Sent → Sent
then_send path (paths, closes) =
    if has_suffix path (codes ".jar") then (path ∷ paths, closes) else (paths, closes)

send_walk : List WalkStep → Sent → Sent
unfolding then_send
send_walk [] rest = rest
send_walk (file path ∷ steps) rest = then_send path (send_walk steps rest)
send_walk (directory path ∷ steps) rest = send_walk steps rest
send_walk (walk_error ∷ steps) rest = ([], false)

unfoldable pub sent : List Root → Sent
unfolding send_walk
sent [] = ([], true)
sent (not_there ∷ roots) = sent roots
sent (unresolved ∷ roots) = ([], false)
sent (walked steps ∷ roots) = send_walk steps (sent roots)

abbrev pub jar_key : MavenJar → Text × (Text × Text)
jar_key j = (j.name, (j.version, j.sha256))

abbrev pub key_order : Order (Text × (Text × Text))
key_order = lex text_order (lex text_order text_order)

-- The less function of `sort.Slice`, as its negation: by name, version and hash.
pub jar_leq : MavenJar → MavenJar → Bool
jar_leq a b = key_order.leq (jar_key a) (jar_key b)

pub jar_leq_antisymm : (a b : MavenJar) → jar_leq a b ≡ true → jar_leq b a ≡ true → a ≡ b
unfolding jar_leq
jar_leq_antisymm a b h k = same (key_order.leq_antisymm (jar_key a) (jar_key b) h k)
  where
    same : jar_key a ≡ jar_key b → a ≡ b
    same e = cc

pub jar_leq_total : (a b : MavenJar) → jar_leq a b ≡ false → jar_leq b a ≡ true
unfolding jar_leq
jar_leq_total a b = key_order.leq_total (jar_key a) (jar_key b)

pub jar_leq_trans :
    (a b c : MavenJar) → jar_leq a b ≡ true → jar_leq b c ≡ true → jar_leq a c ≡ true
unfolding jar_leq
jar_leq_trans a b c = key_order.leq_trans (jar_key a) (jar_key b) (jar_key c)

abbrev pub jar_order : Order MavenJar
jar_order = record {
  leq = jar_leq;
  leq_total = jar_leq_total;
  leq_antisymm = jar_leq_antisymm;
  leq_trans = jar_leq_trans;
}

-- The number of workers.
abbrev pub workers : ℕ
workers = 128

-- The state: the paths that wait to be handed out, the paths in the hands of workers, and the jars
-- that are collected; or the result that is returned, where none is an error.
pub data State : Type 0 where
  running : List Text → List Text → List MavenJar → State
  returned : Option (List MavenJar) → State

module _ (hash : Text → Option Text) (closes : Bool) where
  -- What can happen next, in any order: a worker takes a path; a worker hands its result over; the
  -- first error ends the collection; the channels are closed when the paths are used up and no
  -- worker is busy, and the jars are sorted.
  pub data Step (s t : State) : Type 0 where
    take :
        (p : Text) (ps ws : List Text) (ms : List MavenJar)
        → length ws < workers
        → s ≡ running (p ∷ ps) ws ms
        → t ≡ running ps (p ∷ ws) ms
        → Step s t
    deliver :
        (ps front : List Text) (p : Text) (back : List Text) (ms : List MavenJar) (m : MavenJar)
        → process hash p ≡ some m
        → s ≡ running ps (front ++ p ∷ back) ms
        → t ≡ running ps (front ++ back) (ms ++ m ∷ [])
        → Step s t
    deliver_error :
        (ps front : List Text) (p : Text) (back : List Text) (ms : List MavenJar)
        → process hash p ≡ none
        → s ≡ running ps (front ++ p ∷ back) ms
        → t ≡ returned none
        → Step s t
    stop :
        (ws : List Text) (ms : List MavenJar)
        → closes ≡ false
        → s ≡ running [] ws ms
        → t ≡ returned none
        → Step s t
    close :
        (ms : List MavenJar)
        → closes ≡ true
        → s ≡ running [] [] ms
        → t ≡ returned (some (sort jar_order ms))
        → Step s t

  -- A run of a number of steps.
  pub data Run (s : State) : ℕ → State → Type 0 where
    here : Run s 0 s
    next : {n : ℕ} {t u : State} → Run s n t → Step t u → Run s (n + 1) u

-- `NewMavenJARListing` without goroutines: all jars in turn, then sorted.
add_jar : Option MavenJar → Option (List MavenJar) → Option (List MavenJar)
add_jar none ms = none
add_jar (some m) none = none
add_jar (some m) (some ms) = some (m ∷ ms)

unfoldable pub all_jars : (Text → Option Text) → List Text → Option (List MavenJar)
unfolding add_jar
all_jars hash [] = some []
all_jars hash (p ∷ ps) = add_jar (process hash p) (all_jars hash ps)

sorted : Option (List MavenJar) → Option (List MavenJar)
sorted none = none
sorted (some ms) = some (sort jar_order ms)

unfoldable pub sequential : (Text → Option Text) → Sent → Option (List MavenJar)
unfolding sorted
sequential hash (paths, closes) = if closes then sorted (all_jars hash paths) else none
