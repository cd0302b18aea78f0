-- ===== src/Java/Certificates/Found.antt =====
-- Which files are certificate files.
use jvm_vendors.Base.{
  ℕ, zero, suc, ◌≡◌, ◌↔◌, ◌⊎◌, inl, inr, refl, sym, subst, ap, Bool, true, false, not, ◌||◌,
  Bool-cases, List, [], ◌∷◌, ◌++◌, All, length, arith, ◌==◌, ==_iff, &&_left, &&_right,
  if◌then◌else◌,
}
use jvm_vendors.Base.Result.{ok, >>=-eq-ok, ok-injective}
use jvm_vendors.Base.FilePath.{join_path}
use jvm_vendors.Base.Text.{Text, is_digit}
use jvm_vendors.Java.Certificates.{
  CertificateLoader, Stat, is_there, missing, failing, DirEntry, ReadDir, children, no_dir,
  unlistable, FileSystem, is_hex_digit, hashed_name, is_hashed_name, hashed_files, listed,
  dir_files, stat_file, cert_files,
}

-- Some hexadecimal digits, a dot and a digit.
pub record IsHashed (n : ℕ) (s : Text) : Type 0 where
  pub hex : Text
  pub count : length hex ≡ n
  pub are_hex : All (λ c. is_hex_digit c ≡ true) hex
  pub digit : ℕ
  pub one_digit : is_digit digit ≡ true
  pub whole : s ≡ hex ++ b'.' ∷ digit ∷ []

hashed_name-IsHashed : (n : ℕ) (s : Text) → hashed_name n s ≡ true → IsHashed n s
unfolding hashed_name
hashed_name-IsHashed n [] h = cc
hashed_name-IsHashed zero (c ∷ []) h = cc
hashed_name-IsHashed zero (c ∷ d ∷ []) h =
    let dot : c ≡ b'.' = (==_iff c b'.').0 (&&_left (c == b'.') (is_digit d) h) in
    record {
      hex = [];
      count = refl;
      are_hex = tt;
      digit = d;
      one_digit = &&_right (c == b'.') (is_digit d) h;
      whole = ap (λ k. k ∷ d ∷ []) dot;
    }
hashed_name-IsHashed zero (c ∷ d ∷ e ∷ s) h = cc
hashed_name-IsHashed (suc n) (c ∷ s) h =
    let rest = hashed_name-IsHashed n s (&&_right (is_hex_digit c) (hashed_name n s) h) in
    record {
      hex = c ∷ rest.hex;
      count = ap suc rest.count;
      are_hex = (&&_left (is_hex_digit c) (hashed_name n s) h, rest.are_hex);
      digit = rest.digit;
      one_digit = rest.one_digit;
      whole = ap (λ t. c ∷ t) rest.whole;
    }

hashed_name-append :
    (hex : Text) (d : ℕ)
    → All (λ c. is_hex_digit c ≡ true) hex
    → is_digit d ≡ true
    → hashed_name (length hex) (hex ++ b'.' ∷ d ∷ []) ≡ true
unfolding hashed_name
hashed_name-append [] d h hd = rw hd refl
hashed_name-append (c ∷ []) d (hc, h) hd = rw (hc, hd) refl
hashed_name-append (c ∷ c' ∷ hex) d (hc, h) hd = rw hc (hashed_name-append (c' ∷ hex) d h hd)

IsHashed-hashed_name : (n : ℕ) (s : Text) → IsHashed n s → hashed_name n s ≡ true
IsHashed-hashed_name n s h =
    rw (h.whole, ← h.count) (hashed_name-append h.hex h.digit h.are_hex h.one_digit)

-- The name of a certificate in a directory: eight hexadecimal digits, a dot and a digit.
abbrev pub IsCertificateName : Text → Type 0
IsCertificateName s = IsHashed 8 s

-- The files that are taken from a directory, in its order: no directories, and those whose names are
-- those of certificates.
pub data Selects (d : Text) : List DirEntry → List Text → Type 0 where
  no_entries : Selects d [] []
  taken :
      (e : DirEntry) (es : List DirEntry) (fs : List Text)
      → e.is_dir ≡ false
      → IsCertificateName e.name
      → Selects d es fs
      → Selects d (e ∷ es) (join_path (d ∷ e.name ∷ []) ∷ fs)
  passed :
      (e : DirEntry) (es : List DirEntry) (fs : List Text)
      → (e.is_dir ≡ true) ⊎ (¬ IsCertificateName e.name)
      → Selects d es fs
      → Selects d (e ∷ es) fs

hashed_files-Selects : (d : Text) (es : List DirEntry) → Selects d es (hashed_files d es)
unfolding hashed_files is_hashed_name
hashed_files-Selects d [] = no_entries
hashed_files-Selects d (e ∷ es) =
    by_tests e.is_dir (hashed_name 8 e.name) refl refl (hashed_files-Selects d es)
  where
    by_tests :
        (b c : Bool)
        → e.is_dir ≡ b
        → hashed_name 8 e.name ≡ c
        → Selects d es (hashed_files d es)
        → Selects d (e ∷ es) (
            if b || not c
            then hashed_files d es
            else join_path (d ∷ e.name ∷ []) ∷ hashed_files d es)
    by_tests true c hb hc rest = passed e es (hashed_files d es) (inl hb) rest
    by_tests false false hb hc rest =
        passed e es (hashed_files d es) (inr (λ h. cc (hc, IsHashed-hashed_name 8 e.name h))) rest
    by_tests false true hb hc rest =
        taken e es (hashed_files d es) hb (hashed_name-IsHashed 8 e.name hc) rest

Selects-hashed_files :
    (d : Text) {es : List DirEntry} {fs : List Text} → Selects d es fs → hashed_files d es ≡ fs
unfolding hashed_files is_hashed_name
Selects-hashed_files d no_entries = refl
Selects-hashed_files d (taken e es fs b h s) =
    simp (b, IsHashed-hashed_name 8 e.name h, Selects-hashed_files d s)
Selects-hashed_files d (passed e es fs (inl b) s) = simp (b, Selects-hashed_files d s)
Selects-hashed_files d (passed e es fs (inr h) s) = elim (Bool-cases (hashed_name 8 e.name)) [
  | inl c ↦ absurd (h (hashed_name-IsHashed 8 e.name c))
  | inr c ↦ ground (arith, c, Selects-hashed_files d s)
]

-- The files of some directories, in their order. One that is not there has none.
pub data Lists (fs : FileSystem) : List Text → List Text → Type 0 where
  no_dirs : Lists fs [] []
  absent :
      (d : Text) (ds files : List Text)
      → fs.read_dir d ≡ no_dir
      → Lists fs ds files
      → Lists fs (d ∷ ds) files
  present :
      (d : Text) (ds here rest : List Text) (es : List DirEntry)
      → fs.read_dir d ≡ children es
      → Selects d es here
      → Lists fs ds rest
      → Lists fs (d ∷ ds) (here ++ rest)

dir_files-Lists :
    (fs : FileSystem) (ds : List Text) {files : List Text}
    → dir_files fs ds ≡ ok files
    → Lists fs ds files
unfolding dir_files listed
dir_files-Lists fs [] h = subst (λ x. Lists fs [] x) (ok-injective h) no_dirs
dir_files-Lists fs (d ∷ ds) {files} h =
    let (here, hh, more) = >>=-eq-ok (listed d (fs.read_dir d)) _ h in
    let (rest, hr, e) = >>=-eq-ok (dir_files fs ds) _ more in
    subst (λ x. Lists fs (d ∷ ds) x) (ok-injective e)
      (by_dir (fs.read_dir d) refl hh (dir_files-Lists fs ds hr))
  where
    by_dir :
        {here rest : List Text} (r : ReadDir)
        → fs.read_dir d ≡ r
        → listed d r ≡ ok here
        → Lists fs ds rest
        → Lists fs (d ∷ ds) (here ++ rest)
    by_dir {here} {rest} (children es) hd hh lists =
        present d ds here rest es hd
          (subst (λ x. Selects d es x) (ok-injective hh) (hashed_files-Selects d es)) lists
    by_dir {rest = rest} no_dir hd hh lists =
        subst (λ x. Lists fs (d ∷ ds) (x ++ rest)) (ok-injective hh) (absent d ds rest hd lists)
    by_dir unlistable hd hh lists = cc

Lists-dir_files :
    (fs : FileSystem) {ds files : List Text} → Lists fs ds files → dir_files fs ds ≡ ok files
unfolding dir_files listed
Lists-dir_files fs no_dirs = refl
Lists-dir_files fs (absent d ds files hd lists) = simp (hd, Lists-dir_files fs lists)
Lists-dir_files fs (present d ds here rest es hd s lists) =
    simp (hd, Selects-hashed_files d s, Lists-dir_files fs lists)

-- The file of all certificates, if it is there.
pub data Single (fs : FileSystem) (f : Text) : List Text → Type 0 where
  there : fs.stat f ≡ is_there → Single fs f (f ∷ [])
  not_there : fs.stat f ≡ missing → Single fs f []

stat_file-Single :
    (fs : FileSystem) (f : Text) (s : Stat) {files : List Text}
    → fs.stat f ≡ s
    → stat_file f s ≡ ok files
    → Single fs f files
unfolding stat_file
stat_file-Single fs f is_there e h = subst (λ x. Single fs f x) (ok-injective h) (there e)
stat_file-Single fs f missing e h = subst (λ x. Single fs f x) (ok-injective h) (not_there e)
stat_file-Single fs f failing e h = cc

Single-stat_file :
    (fs : FileSystem) (f : Text) {files : List Text}
    → Single fs f files
    → stat_file f (fs.stat f) ≡ ok files
unfolding stat_file
Single-stat_file fs f (there e) = rw e refl
Single-stat_file fs f (not_there e) = rw e refl

-- The certificate files are listed exactly if the file of all certificates and each directory can be
-- looked at or is missing. They are that file, and behind it for each directory, in order, the files
-- in it that are no directories and whose names are eight hexadecimal digits, a dot and a digit.
pub cert_files_iff :
    (fs : FileSystem) (l : CertificateLoader) (files : List Text)
    → (cert_files fs l ≡ ok files) ↔ (
        (first : List Text) × (rest : List Text) × Single fs l.cert_file first
        × Lists fs l.cert_dirs rest
        × (files ≡ first ++ rest))
unfolding cert_files
cert_files_iff fs l files = (
  (λ h.
      let (first, hf, more) = >>=-eq-ok (stat_file l.cert_file (fs.stat l.cert_file)) _ h in
      let (rest, hr, e) = >>=-eq-ok (dir_files fs l.cert_dirs) _ more in
      (
        first,
        rest,
        stat_file-Single fs l.cert_file (fs.stat l.cert_file) refl hf,
        dir_files-Lists fs l.cert_dirs hr,
        sym (ok-injective e),
      )),
  λ (first, rest, hf, hr, e).
      rw (Single-stat_file fs l.cert_file hf, Lists-dir_files fs hr) (ap ok (sym e)),
)
